-- ===== src/Lifecycle/Stopped/Bills.antt =====
-- What the parts of a stop leave, and how the stop is counted.
use gorch.Base.{
  ℕ, suc, if◌then◌else◌, Bool, true, false, Option, none, some, ◌≡◌, refl, ◌⊎◌, ap, ◌∙◌, inl, inr,
}
use gorch.Lifecycle.{is_set, begin_stop, record_abandoned}
use gorch.Lifecycle.Same.{run_stop_sequence-Same, run_stop_sequence-error}
use gorch.Lifecycle.Stop.{Run, Deadline, no_deadline, met, missed, stop_one_service_deadline}
use gorch.Orchestrator.{Ref, Orchestrator}
use gorch.Service.Errors.{Error, join?, wraps, stop_timeout}
use gorch.Status.{ServiceStatus, is_succeeded, is_active, stopping, stopped}
use gorch.Lifecycle.Stopped.{Facts, Same-Facts, after_begin, begin_stop-Facts, stops_after}

-- What a sequence with a deadline leaves: nothing is committed, and one that is not complete has an
-- error.
pub record Begun (o : Orchestrator) (r : Ref) (s : ServiceStatus) (c : Bool) (n : ℕ) (d : Deadline)
    (hook stop : Run) : Type 0 where
  pub facts : Facts (stop_one_service_deadline o r d hook stop).0 r (after_begin s) c n
  pub active : (stop_one_service_deadline o r d hook stop).1 ≡ is_active s
  pub reported :
      (stop_one_service_deadline o r d hook stop).2 ≡ false
      → is_set (stop_one_service_deadline o r d hook stop).3 ≡ true

pub stop_one_service_deadline-Begun :
    (o : Orchestrator) (r : Ref) (s : ServiceStatus) (c : Bool) (n : ℕ) (d : Deadline)
    (hook stop : Run)
    → Facts o r s c n
    → Begun o r s c n d hook stop
unfolding stop_one_service_deadline begin_stop record_abandoned
stop_one_service_deadline-Begun o r s c n missed hook stop f =
    let begun = begin_stop-Facts o r s c n f in
    record {
      facts = record {
        has_status = begun.has_status;
        has_latch = begun.has_latch;
        has_stops = begun.has_stops;
      };
      active = ap is_active f.has_status;
      reported = λ h. refl;
    }
stop_one_service_deadline-Begun o r s c n met hook stop f =
    let begun = (begin_stop o r).0 in
    record {
      facts =
          Same-Facts r (run_stop_sequence-Same begun r true hook stop)
            (begin_stop-Facts o r s c n f);
      active = ap is_active f.has_status;
      reported = run_stop_sequence-error begun r true hook stop;
    }
stop_one_service_deadline-Begun o r s c n no_deadline hook stop f =
    let begun = (begin_stop o r).0 in
    record {
      facts =
          Same-Facts r (run_stop_sequence-Same begun r false hook stop)
            (begin_stop-Facts o r s c n f);
      active = ap is_active f.has_status;
      reported = run_stop_sequence-error begun r false hook stop;
    }

-- A stop counted at most once: the latch and the number of stops of two states.
abbrev pub Bill : Bool → ℕ → Bool → ℕ → Type 0
Bill c n c' n' = ((c' ≡ c) × (n' ≡ n)) ⊎ ((c' ≡ true) × (n' ≡ (if c then n else suc n)))

-- What other goroutines do to the entry in a stop: its instance may exit. Where the entry is marked as
-- removing the status is left; else it may have become Stopped, and the stop have been counted once.
pub record Exiting (r : Ref) (a b : Orchestrator) : Type 0 where
  pub status_end : ((b.store r).status ≡ (a.store r).status) ⊎ ((b.store r).status ≡ stopped)
  pub held : (a.store r).removing ≡ true → (b.store r).status ≡ (a.store r).status
  pub same_mark : (b.store r).removing ≡ (a.store r).removing
  pub billed :
      Bill (a.store r).stops_counted a.metrics.stops (b.store r).stops_counted b.metrics.stops

-- The ends of a stop: a verified stop commits Stopped; another one commits nothing and has an error, and
-- the entry stays Stopping unless its exiting instance has made it Stopped. The stop is counted at most
-- once; a verified one of an entry that was active when its sequence began, and not counted, is counted.
pub data StopEnd (o : Orchestrator) (r : Ref) (begun : Orchestrator) (verified : Bool)
    (o' : Orchestrator) (e : Option Error) : Type 0 where
  committed :
      verified ≡ true
      → (o'.store r).status ≡ stopped
      → (o'.metrics.stops ≡ o.metrics.stops)
        ⊎ (((o.store r).stops_counted ≡ false) × (o'.metrics.stops ≡ suc o.metrics.stops))
      → (is_active (begun.store r).status ≡ true
          → (begun.store r).stops_counted ≡ false
          → o'.metrics.stops ≡ suc begun.metrics.stops)
      → StopEnd o r begun verified o' e
  unverified :
      verified ≡ false
      → is_set e ≡ true
      → ((o'.store r).status ≡ stopping) ⊎ ((o'.store r).status ≡ stopped)
      → ((o.store r).removing ≡ true → (o'.store r).status ≡ stopping)
      → (o'.metrics.stops ≡ o.metrics.stops)
        ⊎ (((o.store r).stops_counted ≡ false) × (o'.metrics.stops ≡ suc o.metrics.stops))
      → StopEnd o r begun verified o' e

pub Bill-then : (c d e : Bool) (n m k : ℕ) → Bill c n d m → Bill d m e k → Bill c n e k
Bill-then c d e n m k (inl (p, q)) (inl (u, v)) = inl (u ∙ p, v ∙ q)
Bill-then c d e n m k (inl (p, q)) (inr (u, v)) =
    inr (u, v ∙ ap (λ z. if z then m else suc m) p ∙ ap (λ z. if c then z else suc z) q)
Bill-then c d e n m k (inr (p, q)) (inl (u, v)) = inr (u ∙ p, v ∙ q)
Bill-then c d e n m k (inr (p, q)) (inr (u, v)) =
    inr (u, v ∙ ap (λ z. if z then m else suc m) p ∙ q)

pub Bill-once : (c c' : Bool) (n n' : ℕ) → Bill c n c' n' → (n' ≡ n) ⊎ ((c ≡ false) × (n' ≡ suc n))
Bill-once c c' n n' (inl (_, q)) = inl q
Bill-once true c' n n' (inr (_, q)) = inl q
Bill-once false c' n n' (inr (_, q)) = inr (refl, q)

-- The count of a commit.
pub commit-Bill :
    (s : ServiceStatus) (active c : Bool) (n : ℕ)
    → is_succeeded s ≡ false
    → (c' : Bool) × Bill c n c' (stops_after s active c n)
commit-Bill s true true n h = (true, inl (refl, rw h refl))
commit-Bill s true false n h = (true, inr (refl, rw h refl))
commit-Bill s false c n h = (c, inl (refl, rw h refl))

pub due_count :
    (s : ServiceStatus) (active c d : Bool) (n m : ℕ)
    → is_succeeded s ≡ false
    → active ≡ true
    → c ≡ false
    → Bill c n d m
    → stops_after s active d m ≡ suc n
due_count s active c d n m h a z (inl (p, q)) = rw (h, a, p, z, q) refl
due_count s active c d n m h a z (inr (p, q)) = rw (h, a, p, q, z) refl

pub unsucceeded :
    (s t : ServiceStatus)
    → is_succeeded s ≡ false
    → (t ≡ s) ⊎ (t ≡ stopped)
    → is_succeeded t ≡ false
unsucceeded s t h (inl e) = ap is_succeeded e ∙ h
unsucceeded s t h (inr e) = ap is_succeeded e

pub stopping_or :
    (t u : ServiceStatus) → t ≡ stopping → (u ≡ t) ⊎ (u ≡ stopped) → (u ≡ stopping) ⊎ (u ≡ stopped)
stopping_or t u h (inl e) = inl (e ∙ h)
stopping_or t u h (inr e) = inr e

pub ended_unsucceeded :
    (t : ServiceStatus) → (t ≡ stopping) ⊎ (t ≡ stopped) → is_succeeded t ≡ false
ended_unsucceeded t (inl e) = ap is_succeeded e
ended_unsucceeded t (inr e) = ap is_succeeded e

pub joined-timeout : (e : Option Error) → is_set (join? e (some (wraps stop_timeout))) ≡ true
unfolding join?
joined-timeout none = refl
joined-timeout (some e) = refl
