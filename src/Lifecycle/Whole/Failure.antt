-- ===== src/Lifecycle/Whole/Failure.antt =====
-- What a failed Start leaves.
use gorch.Base.{
  ℕ, Bool, false, List, [], ◌∷◌, Memᴰ, Option, none, pos, ℕ_discrete, ◌≡◌, ◌≢◌, refl, sym, ap,
  subst, inl, inr, arith,
}
use mathlib.Core.List.Memᴰ.{cases_cons}
use gorch.Cron.{reset_cron_accounting}
use gorch.Entry.{ServiceEntry, reset_entry_locked}
use gorch.Lifecycle.Exit.{panic, heal_under, heal_exit}
use gorch.Lifecycle.Whole.{claim_start, reset_after_start_failure, reset_entries, await}
use gorch.Orchestrator.{Ref, Orchestrator, modify}
use gorch.Runtime.{Context}
use gorch.Service.Errors.{Error, ok}
use gorch.Status.{registered}

-- An entry with no run state.
pub record IsFresh (e : ServiceEntry) : Type 0 where
  pub status_back : e.status ≡ registered
  pub no_instance : e.done ≡ none
  pub no_cancel : e.cancel ≡ none
  pub no_teardown : e.teardown ≡ none
  pub latch_open : e.wg_done ≡ false
  pub no_retries : e.retry_count ≡ 0
  pub no_failures : e.health_failures ≡ 0
  pub no_stability : e.stable_since ≡ 0
  pub stop_uncounted : e.stops_counted ≡ false
  pub no_invocation : e.running ≡ false
  pub no_start_goid : e.start_goid ≡ 0
  pub no_stop_goid : e.stop_goid ≡ 0
  pub unscheduled : e.cron_id ≡ 0
  pub no_teardown_cancel : e.teardown_cancel ≡ none
  pub no_logger : e.logger ≡ none
  pub no_ticks : e.track.cron_active ≡ pos 0
  pub no_drain : e.track.cron_draining ≡ false
  pub no_latch : e.track.cron_drained ≡ none
  pub no_cron_ctx : e.track.cron_ctx ≡ none

abbrev reset_one : Orchestrator → Ref → Orchestrator
unfolding reset_entry_locked
reset_one o r =
    let reset = reset_entry_locked o.rt (o.store r) in
    record (modify o r (λ e. record (reset.1) { logger = none })) { rt = reset.0 }

reset_one-IsFresh : (o : Orchestrator) (r : Ref) → IsFresh ((reset_one o r).store r)
unfolding reset_one reset_entry_locked reset_cron_accounting
reset_one-IsFresh o r = record {
  status_back = ground arith;
  no_instance = ground arith;
  no_cancel = ground arith;
  no_teardown = ground arith;
  latch_open = ground arith;
  no_retries = ground arith;
  no_failures = ground arith;
  no_stability = ground arith;
  stop_uncounted = ground arith;
  no_invocation = ground arith;
  no_start_goid = ground arith;
  no_stop_goid = ground arith;
  unscheduled = ground arith;
  no_teardown_cancel = ground arith;
  no_logger = ground arith;
  no_ticks = ground arith;
  no_drain = ground arith;
  no_latch = ground arith;
  no_cron_ctx = ground arith;
}

reset_one-other : (o : Orchestrator) (r j : Ref) → j ≢ r → (reset_one o r).store j ≡ o.store j
unfolding reset_one
reset_one-other o r j n = ground (arith, n)

IsFresh-stays :
    (o : Orchestrator) (rs : List Ref) (j : Ref)
    → IsFresh (o.store j)
    → IsFresh ((reset_entries o rs).store j)
unfolding reset_entries reset_one
IsFresh-stays o [] j h = h
IsFresh-stays o (r ∷ rs) j h = IsFresh-stays (reset_one o r) rs j (one (ℕ_discrete j r))
  where
    one : Dec (j ≡ r) → IsFresh ((reset_one o r).store j)
    one (yes e) = subst (λ z. IsFresh ((reset_one o r).store z)) (sym e) (reset_one-IsFresh o r)
    one (no n) = subst IsFresh (sym (reset_one-other o r j n)) h

reset_entries-IsFresh :
    (o : Orchestrator) (rs : List Ref) (j : Ref)
    → Memᴰ j rs
    → IsFresh ((reset_entries o rs).store j)
unfolding reset_entries reset_one
reset_entries-IsFresh o [] j m = elim m [ ]
reset_entries-IsFresh o (r ∷ rs) j m = elim (cases_cons m) [
  | inl e ↦
      IsFresh-stays (reset_one o r) rs j
        (subst (λ z. IsFresh ((reset_one o r).store z)) (sym e) (reset_one-IsFresh o r))
  | inr t ↦ reset_entries-IsFresh (reset_one o r) rs j t
]

reset_entries-kept :
    (o : Orchestrator) (rs : List Ref)
    → ((reset_entries o rs).started ≡ o.started)
      × ((reset_entries o rs).start_claimed ≡ o.start_claimed)
      × ((reset_entries o rs).start_once ≡ o.start_once)
      × ((reset_entries o rs).ctx ≡ o.ctx)
unfolding reset_entries reset_one
reset_entries-kept o [] = (refl, refl, refl, refl)
reset_entries-kept o (r ∷ rs) = reset_entries-kept (reset_one o r) rs

-- The state before the entries are reset.
abbrev cleared : Orchestrator → Bool → Bool → Orchestrator
unfolding await
cleared o exited pumped =
    let waited = await exited o none in
    record (await pumped waited.0 waited.1).0 {
      started = false;
      start_claimed = false;
      stopping = false;
      stopped = false;
      ctx = none;
      start_once = false;
      stop_once = false;
    }

-- A failed Start can be tried again, whether its waits ended or ran out: the next Start is not refused
-- and its once is not spent; and every entry that Start had taken is registered, with no instance, no
-- contexts and no logger, with its wait group latch, its stop latch and its CronSkip flag cleared, no
-- retries, no failed probes and no stability window counted, no goroutine of a Start or Stop noted, and
-- no cron id, no schedule context, no tick in flight and no drain.
pub reset_after_start_failure-IsFresh :
    (o : Orchestrator) (entries : List Ref) (exited pumped : Bool)
    → let after = (reset_after_start_failure o entries exited pumped).0 in
      ((claim_start after).1 ≡ ok tt)
      × (after.start_once ≡ false)
      × ((r : Ref) → Memᴰ r entries → IsFresh (after.store r))
unfolding reset_after_start_failure claim_start cleared
reset_after_start_failure-IsFresh o entries exited pumped =
    let begun = cleared o exited pumped in
    let (a, b, c, _) = reset_entries-kept begun entries in
    (rw (a, b, claim_start) refl, c, λ r m. reset_entries-IsFresh begun entries r m)

-- The instance of a self-heal service that outlives a failed Start panics when it exits: o.ctx is nil
-- then, and the branch with a factory reads it unchecked.
pub heal_exit-reset :
    (o : Orchestrator) (entries : List Ref) (exited pumped : Bool) (r : Ref) (e : Option Error)
    (owner : ℕ) (c : Context) (stable : Bool)
    → heal_exit (reset_after_start_failure o entries exited pumped).0 r e owner c stable ≡ panic
unfolding heal_exit reset_after_start_failure cleared
heal_exit-reset o entries exited pumped r e owner c stable =
    let (_, _, _, no_ctx) = reset_entries-kept (cleared o exited pumped) entries in
    ap
      (λ ctx.
        heal_under (reset_after_start_failure o entries exited pumped).0 ctx r e owner c stable)
      no_ctx
