-- ===== src/Health/Threshold.antt =====
-- A service that keeps failing its probes is restarted at the threshold, and not before.
use gorch.Base.{
  ℕ, zero, suc, ◌+◌, ◌<◌, ◌≤◌, ◌==◌, if◌then◌else◌, Bool, true, false, not, ◌&&◌, Option, none,
  some, pos, ltb_ℤ, ◌≡◌, refl, ap, subst, ◌∙◌, arith,
}
use gorch.Entry.{ServiceEntry}
use gorch.Health.{
  after_probe, tell_after_check, record_result, count_failure, is_over, health_still_current,
  set_health_failures,
}
use gorch.Lifecycle.{is_set}
use gorch.Orchestrator.{Ref, Orchestrator, notify, after_health_check}
use gorch.Runtime.{Runtime, Context, cancel?}
use gorch.Service.Errors.{Error}

-- The same error of a probe, time after time, with no other operation between.
abbrev pub failing : Orchestrator → Ref → Error → ℕ → Orchestrator
unfolding after_probe
failing o r e zero = o
failing o r e (suc k) = after_probe (failing o r e k) r (some e)

-- A self-heal entry that the index leads to, under a threshold, with the failures that it counts.
pub record Counts (o : Orchestrator) (r : Ref) (threshold k fails : ℕ) (c : Option Context)
    (rt : Runtime) : Type 0 where
  pub is_current : health_still_current o r ≡ true
  pub has_factory : is_set (o.store r).cfg.factory ≡ true
  pub under : o.cfg.health_threshold ≡ pos threshold
  pub counted : (o.store r).health_failures ≡ k
  pub cancels : (o.store r).cancel ≡ c
  pub fails_counted : o.metrics.health_fails ≡ fails
  pub same_rt : o.rt ≡ rt

tell-Counts :
    (o : Orchestrator) (r : Ref) (e : Option Error) {t k f : ℕ} {c : Option Context} {rt : Runtime}
    → Counts o r t k f c rt
    → Counts (tell_after_check o r e) r t k f c rt
unfolding health_still_current
tell-Counts o r e {t} {k} {f} {c} {rt} v = pick (is_set o.cfg.after_health_check)
  where
    pick :
        (b : Bool)
        → Counts (if b then notify o (after_health_check (o.store r).name e) else o) r t k f c rt
    pick true = record {
      is_current = v.is_current;
      has_factory = v.has_factory;
      under = v.under;
      counted = v.counted;
      cancels = v.cancels;
      fails_counted = v.fails_counted;
      same_rt = v.same_rt;
    }
    pick false = v

-- The entry after a write of its failures.
module _ (o : Orchestrator) (r : Ref) (n : ℕ) where
  written : (set_health_failures o r n).store r ≡ record (o.store r) { health_failures = n }
  written = ground arith

  written-current : health_still_current (set_health_failures o r n) r ≡ health_still_current o r
  unfolding health_still_current
  written-current =
      ap
        (λ (q : ServiceEntry).
          (elim (o.name_index q.name) [ none ↦ false | some s ↦ s == r ]) && not q.removing)
        written

module _ (o : Orchestrator) (r : Ref) (t k f : ℕ) (c : Option Context) (rt : Runtime)
    (v : Counts o r t k f c rt) where
  over :
      (b : Bool)
      → not (ltb_ℤ (pos (suc k)) (pos t)) ≡ b
      → is_over o r (suc (o.store r).health_failures) ≡ b
  over true h = rw (v.counted, v.under, v.has_factory, h) refl
  over false h = rw (v.counted, v.under, v.has_factory, h) refl

  -- One more failure under the threshold, and the one that meets it.
  count_failure-below : suc k < t → Counts (count_failure o r) r t (suc k) (suc f) c rt
  unfolding count_failure health_still_current
  count_failure-below lt =
      rw (over false (ground (arith, lt)), count_failure)
        (record {
          is_current = written-current o r (suc (o.store r).health_failures) ∙ v.is_current;
          has_factory = ground (arith, v.has_factory);
          under = v.under;
          counted = ground (arith, v.counted);
          cancels = ground (arith, v.cancels);
          fails_counted = ap suc v.fails_counted;
          same_rt = v.same_rt;
        })

  count_failure-at : t ≡ suc k → Counts (count_failure o r) r t 0 (suc f) c (cancel? rt c)
  unfolding count_failure health_still_current
  count_failure-at e =
      rw (over true (ground (arith, e)), count_failure)
        (record {
          is_current = written-current o r 0 ∙ v.is_current;
          has_factory = ground (arith, v.has_factory);
          under = v.under;
          counted = ground arith;
          cancels = ground (arith, v.cancels);
          fails_counted = ap suc v.fails_counted;
          same_rt = ap (λ x. cancel? x (o.store r).cancel) v.same_rt ∙ ap (cancel? rt) v.cancels;
        })

-- A probe that fails, for an entry that is current.
after_probe-fails :
    (o : Orchestrator) (r : Ref) (e : Error) (P : Orchestrator → Type 0)
    → health_still_current (tell_after_check o r (some e)) r ≡ true
    → P (count_failure (tell_after_check o r (some e)) r)
    → P (after_probe o r (some e))
unfolding after_probe record_result
after_probe-fails o r e P h p = rw (h, after_probe) p

failing-below :
    (o : Orchestrator) (r : Ref) (e : Error) (t f : ℕ) (c : Option Context) (rt : Runtime) (k : ℕ)
    → Counts o r t 0 f c rt
    → k < t
    → Counts (failing o r e k) r t k (k + f) c rt
unfolding failing
failing-below o r e t f c rt zero v lt =
    let sum : f ≡ 0 + f = omega arith in subst (λ z. Counts o r t 0 z c rt) sum v
failing-below o r e t f c rt (suc k) v lt =
    let before = failing-below o r e t f c rt k v (omega (arith, lt)) in
    let told = tell-Counts (failing o r e k) r (some e) before in
    let sum : suc (k + f) ≡ suc k + f = omega arith in
    after_probe-fails (failing o r e k) r e (λ q. Counts q r t (suc k) (suc k + f) c rt)
      told.is_current
      (subst
        (λ z.
          Counts (count_failure (tell_after_check (failing o r e k) r (some e)) r) r t (suc k) z c
            rt)
        sum
        (count_failure-below (tell_after_check (failing o r e k) r (some e)) r t k (k + f) c rt told
          lt))

-- A self-heal service that the index leads to and that no teardown holds, with no counted failures and
-- under the threshold `suc n`, fails its probes in a row:
-- up to `n` of them are only counted, and cancel nothing; the next one cancels its instance, and no
-- other context, and sets the count back to 0. Each failure counts in the metrics.
pub failing-threshold :
    (o : Orchestrator) (r : Ref) (e : Error) (n f : ℕ) (c : Option Context) (rt : Runtime)
    → Counts o r (suc n) 0 f c rt
    → ((k : ℕ) → k ≤ n → Counts (failing o r e k) r (suc n) k (k + f) c rt)
      × Counts (failing o r e (suc n)) r (suc n) 0 (suc (n + f)) c (cancel? rt c)
unfolding failing
failing-threshold o r e n f c rt v =
    let below =
      λ (k : ℕ) (le : k ≤ n). failing-below o r e (suc n) f c rt k v (omega (arith, le)) in
    let told = tell-Counts (failing o r e n) r (some e) (below n (omega arith)) in
    (
      below,
      after_probe-fails (failing o r e n) r e
          (λ q. Counts q r (suc n) 0 (suc (n + f)) c (cancel? rt c)) told.is_current
          (count_failure-at (tell_after_check (failing o r e n) r (some e)) r (suc n) n (n + f) c rt
            told refl),
    )
