-- ===== src/Ticks/Flags.antt =====
-- What a tick does to the CronSkip flags.
use gorch.Base.{
  ℕ, suc, ◌==◌, if◌then◌else◌, Bool, Bool-cases, true, false, Option, none, some, ℕ_discrete, ◌≡◌,
  ◌≢◌, refl, sym, ap, subst, ◌∙◌, inl, inr, arith,
}
use mathlib.Core.Bool.{false≢true}
use gorch.Cron.{cron_begin}
use gorch.Entry.{ServiceEntry, add_owner_id, remove_owner_id}
use gorch.Lifecycle.{is_failure, new_owner, release_owner}
use gorch.Orchestrator.{Ref, Orchestrator, modify}
use gorch.Runtime.{Context, cancel?}
use gorch.Service.Errors.{Error, Call, call_err}
use gorch.Service.{RegisterConfig}
use gorch.Ticks.{
  Tick, refused_tick, skipped, invoked, is_skip, set_running, call_start, admit, admit_by, on_begin,
  end_tick, invoke_cron_begin, invoke_cron_end, count_cron_failure,
}

-- The CronSkip flags and the configurations are the same.
pub record Kept (a b : Orchestrator) : Type 0 where
  pub same_running : (j : Ref) → (b.store j).running ≡ (a.store j).running
  pub same_cfg : (j : Ref) → (b.store j).cfg ≡ (a.store j).cfg

infixr 5 ◌then◌
pub ◌then◌ : {a b c : Orchestrator} → Kept a b → Kept b c → Kept a c
p then q = record {
  same_running = λ j. q.same_running j ∙ p.same_running j;
  same_cfg = λ j. q.same_cfg j ∙ p.same_cfg j;
}

modify-Kept :
    (o : Orchestrator) (x : Ref) (f : ServiceEntry → ServiceEntry)
    → (f (o.store x)).running ≡ (o.store x).running
    → (f (o.store x)).cfg ≡ (o.store x).cfg
    → Kept o (modify o x f)
modify-Kept o x f h k = record {
  same_running =
      λ j. elim (ℕ_discrete j x) [ yes e ↦ ground (arith, e, h) | no n ↦ ground (arith, n) ];
  same_cfg = λ j. elim (ℕ_discrete j x) [ yes e ↦ ground (arith, e, k) | no n ↦ ground (arith, n) ];
}

pub Kept-refl : (o : Orchestrator) → Kept o o
Kept-refl o = record { same_running = λ j. refl; same_cfg = λ j. refl }

end_tick-Kept : (o : Orchestrator) (x : Ref) (gen : ℕ) → Kept o (end_tick o x gen)
unfolding end_tick
end_tick-Kept o x gen = record { same_running = λ j. ground arith; same_cfg = λ j. ground arith }

-- A call of Start changes the entry's owners only.
call_start-Kept :
    (o p : Orchestrator) (x : Ref) (parent c : Context) (owner : ℕ)
    → call_start o x parent ≡ invoked p owner c
    → Kept o p
unfolding call_start new_owner add_owner_id
call_start-Kept o p x parent c owner h =
    subst (Kept o) (first h)
      (record { same_running = λ j. ground arith; same_cfg = λ j. ground arith })
  where
    first : {a b : Orchestrator} {m n : ℕ} {d e : Context} → invoked a m d ≡ invoked b n e → a ≡ b
    first k = cc k

abbrev pub skips_overlaps : Orchestrator → Ref → Bool
skips_overlaps o x = is_skip (o.store x).cfg.cron_mode

-- The flag of an entry after a step of one of its ticks.
pub record Moved (o p : Orchestrator) (x : Ref) (before after : Bool) : Type 0 where
  pub others : (j : Ref) → j ≢ x → (p.store j).running ≡ (o.store j).running
  pub cfgs : (j : Ref) → (p.store j).cfg ≡ (o.store j).cfg
  pub was : skips_overlaps o x ≡ true → (o.store x).running ≡ before
  pub is_now : skips_overlaps o x ≡ true → (p.store x).running ≡ after

-- What a tick comes to.
pub data Began (o : Orchestrator) (x : Ref) : Tick → Type 0 where
  was_refused : (p : Orchestrator) → Kept o p → Began o x (refused_tick p)
  was_skipped : (p : Orchestrator) → Kept o p → Began o x (skipped p)
  was_called :
      (p : Orchestrator) (owner : ℕ) (c : Context)
      → Moved o p x false true
      → Began o x (invoked p owner c)

call_start-Began :
    (o a : Orchestrator) (x : Ref) (parent : Context)
    → ((p : Orchestrator) → Kept a p → Moved o p x false true)
    → Began o x (call_start a x parent)
unfolding call_start
call_start-Began o a x parent moved =
    was_called _ _ _ (moved _ (call_start-Kept a _ x parent _ _ refl))

admit-Began :
    (o : Orchestrator) (x : Ref) (gen : ℕ) (parent : Context) → Began o x (admit o x gen parent)
unfolding admit admit_by
admit-Began o x gen parent = by_flags (skips_overlaps o x) (o.store x).running refl refl
  where
    by_flags :
        (s runs : Bool)
        → skips_overlaps o x ≡ s
        → (o.store x).running ≡ runs
        → Began o x (admit_by s runs o x gen parent)
    by_flags true true e h = was_skipped (end_tick o x gen) (end_tick-Kept o x gen)
    by_flags true false e h = call_start-Began o (set_running o x true) x parent (λ p k. record {
      others = λ j n. k.same_running j ∙ ground (arith, n);
      cfgs = λ j. k.same_cfg j ∙ ground arith;
      was = λ _. h;
      is_now = λ _. k.same_running x ∙ ground arith;
    })
    by_flags false runs e h = call_start-Began o o x parent (λ p k. record {
      others = λ j n. k.same_running j;
      cfgs = λ j. k.same_cfg j;
      was = λ s. absurd (false≢true (sym e ∙ s));
      is_now = λ s. absurd (false≢true (sym e ∙ s));
    })

-- The begin of a tick, from a state with the same flags.
Kept-Began : {a b : Orchestrator} (x : Ref) (t : Tick) → Kept a b → Began b x t → Began a x t
Kept-Began x t k (was_refused p h) = was_refused p (k then h)
Kept-Began x t k (was_skipped p h) = was_skipped p (k then h)
Kept-Began x t k (was_called p owner c h) =
    let mode = ap (λ (z : RegisterConfig). is_skip z.cron_mode) (k.same_cfg x) in
    was_called p owner c (record {
      others = λ j n. h.others j n ∙ k.same_running j;
      cfgs = λ j. h.cfgs j ∙ k.same_cfg j;
      was = λ s. sym (k.same_running x) ∙ h.was (mode ∙ s);
      is_now = λ s. h.is_now (mode ∙ s);
    })

pub invoke_cron_begin-Began :
    (o : Orchestrator) (x : Ref) (gen : ℕ) → Began o x (invoke_cron_begin o x gen)
unfolding invoke_cron_begin
invoke_cron_begin-Began o x gen = by_answer (cron_begin o.rt (o.store x).track gen).1
  where
    begun : Orchestrator
    begun = modify o x (λ e. record e { track = (cron_begin o.rt (o.store x).track gen).0 })

    by_answer : (a : Option Context) → Began o x (on_begin begun x gen a)
    by_answer none = was_refused begun (
        modify-Kept o x (λ e. record e { track = (cron_begin o.rt (o.store x).track gen).0 }) refl
          refl)
    by_answer (some parent) =
        Kept-Began x (admit begun x gen parent)
          (modify-Kept o x (λ e. record e { track = (cron_begin o.rt (o.store x).track gen).0 })
            refl refl)
          (admit-Began begun x gen parent)

release_owner-Kept : (o : Orchestrator) (x : Ref) (id : ℕ) → Kept o (release_owner o x id)
unfolding release_owner remove_owner_id
release_owner-Kept o x id = elim (Bool-cases (id == 0)) [
  | inl e ↦ rw (e, release_owner) (Kept-refl o)
  | inr e ↦
      rw (e, release_owner)
        (record { same_running = λ j. ground arith; same_cfg = λ j. ground arith })
]

count_cron_failure-Kept : (o : Orchestrator) (e : Option Error) → Kept o (count_cron_failure o e)
count_cron_failure-Kept o e = pick (is_failure e)
  where
    pick :
        (b : Bool)
        → Kept o (
            if b
            then record o {
              metrics = record o.metrics { cron_failures = suc o.metrics.cron_failures };
            }
            else o)
    pick true = record { same_running = λ j. refl; same_cfg = λ j. refl }
    pick false = Kept-refl o

-- The flag of the entry after its Start has returned.
pub invoke_cron_end-Moved :
    (o : Orchestrator) (x : Ref) (gen owner : ℕ) (c : Context) (call : Call)
    → Moved o (invoke_cron_end o x gen owner c call) x (o.store x).running false
unfolding invoke_cron_end
invoke_cron_end-Moved o x gen owner c call = idle (skips_overlaps o x) refl
  where
    counted : Orchestrator
    counted = count_cron_failure o (call_err call)

    released : Orchestrator
    released = release_owner (record counted { rt = cancel? counted.rt (some c) }) x owner

    kept : Kept o released
    kept =
        count_cron_failure-Kept o (call_err call)
        then record { same_running = λ j. refl; same_cfg = λ j. refl }
        then release_owner-Kept (record counted { rt = cancel? counted.rt (some c) }) x owner

    idle :
        (b : Bool)
        → skips_overlaps o x ≡ b
        → Moved o
            (end_tick (if b then set_running released x false else released) x gen)
            x
            (o.store x).running
            false
    idle true e =
        let k = end_tick-Kept (set_running released x false) x gen in
        record {
          others = λ j n. k.same_running j ∙ ground (arith, n) ∙ kept.same_running j;
          cfgs = λ j. k.same_cfg j ∙ ground arith ∙ kept.same_cfg j;
          was = λ _. refl;
          is_now = λ _. k.same_running x ∙ ground arith;
        }
    idle false e =
        let k = kept then end_tick-Kept released x gen in
        record {
          others = λ j n. k.same_running j;
          cfgs = k.same_cfg;
          was = λ _. refl;
          is_now = λ s. absurd (false≢true (sym e ∙ s));
        }
