-- ===== src/Lifecycle/Steady.antt =====
-- The steps of lifecycle.go that leave the wait group and its latches alone.
pub mod Exits
pub mod Starts
pub mod Heals
pub mod Stops
use gorch.Base.{
  ℕ, suc, ◌+◌, ◌==◌, if◌then◌else◌, Bool, true, false, List, [], ◌∷◌, Option, none, some,
  Option-cases, Bool-cases, ℕ_discrete, name_discrete, ite, not, ◌&&◌, ltb_ℤ, pos, ◌≡◌, refl, sym,
  ap, ◌∙◌, inl, inr, arith,
}
use gorch.Config.{Config}
use gorch.Cron.{cron_drain}
use gorch.Entry.{
  ServiceEntry, add_owner_id, remove_owner_id, take_owners, release_teardown_if, reset_entry_locked,
}
use gorch.Lifecycle.{
  set_field, tell_change, count_crash, tell_crash, is_set, is_crashed, same_status, set_status_err,
  set_status, begin_stop, account_stop, finish_stop, record_abandoned, after_stop_hook, stop_hook,
  new_owner, release_owner, drain_owners, drain_service,
}
use gorch.Lifecycle.Stop.{
  Run, on_time, late, timed, hook_overrun, call_before_stop_hook, stop_service_bounded,
  tell_after_stop, run_stop_sequence, Deadline, no_deadline, met, missed, stop_one_service_deadline,
  commit, cut_off, stop_entry, Planned, stop_set, cancel_entry, drain_ticks, remove_cron_entry,
}
use gorch.Messenger.{register_owner, drain_owner}
use gorch.Orchestrator.{Ref, Orchestrator, Callback, modify, notify, on_state_change, on_crash}
use gorch.Service.Errors.{Error, join?, other}
use gorch.Status.{ServiceStatus, is_succeeded, is_stopping, stopping, stopped}

-- The calls of OnCrash.
abbrev pub crash_calls : List Callback → ℕ
crash_calls [] = 0
crash_calls (on_crash n e ∷ cs) = suc (crash_calls cs)
crash_calls (_ ∷ cs) = crash_calls cs

-- Where OnCrash is set, it is called as often as a crash is counted.
abbrev pub Tally : Orchestrator → Orchestrator → Type 0
Tally o o' =
    is_set o.cfg.on_crash ≡ true
    → crash_calls o'.calls + o.metrics.crashes ≡ crash_calls o.calls + o'.metrics.crashes

-- The counter, its panic and the latch of every entry are the same, and crashes are told.
pub record Steady (o o' : Orchestrator) : Type 0 where
  pub same_wg : o'.wg ≡ o.wg
  pub same_panic : o'.wg_panic ≡ o.wg_panic
  pub same_latch : (j : Ref) → (o'.store j).wg_done ≡ (o.store j).wg_done
  pub same_cfg : o'.cfg ≡ o.cfg
  pub tally : Tally o o'

pub Steady-refl : (o : Orchestrator) → Steady o o
Steady-refl o = record {
  same_wg = refl;
  same_panic = refl;
  same_latch = λ j. refl;
  same_cfg = refl;
  tally = λ h. refl;
}

pub Tally-trans : (a b c : Orchestrator) → b.cfg ≡ a.cfg → Tally a b → Tally b c → Tally a c
Tally-trans a b c same p q h =
    omega (arith, p h, q (ap (λ (k : Config). is_set k.on_crash) same ∙ h))

infixr 5 ◌then◌
pub ◌then◌ : {a b c : Orchestrator} → Steady a b → Steady b c → Steady a c
◌then◌ {a} {b} {c} p q = record {
  same_wg = q.same_wg ∙ p.same_wg;
  same_panic = q.same_panic ∙ p.same_panic;
  same_latch = λ j. q.same_latch j ∙ p.same_latch j;
  same_cfg = q.same_cfg ∙ p.same_cfg;
  tally = Tally-trans a b c p.same_cfg p.tally q.tally;
}

-- Either branch of a test, and either case of an optional value.
pub if-Steady :
    (b : Bool) (o x y : Orchestrator) → Steady o x → Steady o y → Steady o (if b then x else y)
if-Steady true o x y p q = p
if-Steady false o x y p q = q

-- The same for a step that has further results.
pub if-Steady_pair {ℓ} :
    {A : Type ℓ} (b : Bool) (o : Orchestrator) (x y : Orchestrator × A)
    → Steady o x.0
    → Steady o y.0
    → Steady o (if b then x else y).0
if-Steady_pair true o x y p q = p
if-Steady_pair false o x y p q = q

pub ite-Steady {ℓ} :
    {P : Type ℓ} (d : Dec P) (o x y : Orchestrator) → Steady o x → Steady o y → Steady o (ite d x y)
ite-Steady (yes a) o x y p q = p
ite-Steady (no a) o x y p q = q

pub modify-Steady :
    (o : Orchestrator) (r : Ref) (f : ServiceEntry → ServiceEntry)
    → (f (o.store r)).wg_done ≡ (o.store r).wg_done
    → Steady o (modify o r f)
modify-Steady o r f h = record {
  same_wg = refl;
  same_panic = refl;
  same_latch =
      λ j. elim (ℕ_discrete j r) [ yes e ↦ ground (arith, e, h) | no n ↦ ground (arith, n) ];
  same_cfg = refl;
  tally = λ h. refl;
}

pub notify-Steady :
    (o : Orchestrator) (c : Callback)
    → crash_calls (c ∷ o.calls) ≡ crash_calls o.calls
    → Steady o (notify o c)
notify-Steady o c silent = record {
  same_wg = refl;
  same_panic = refl;
  same_latch = λ j. refl;
  same_cfg = refl;
  tally = λ h. ap (λ n. n + o.metrics.crashes) silent;
}

tell_change-Steady :
    (o : Orchestrator) (r : Ref) (old s : ServiceStatus) → Steady o (tell_change o r old s)
tell_change-Steady o r old s =
    if-Steady (is_set o.cfg.on_state_change && not (same_status old s)) o
      (notify o (on_state_change (o.store r).name old s)) o (notify-Steady o _ refl) (Steady-refl o)

crash-Steady :
    (o : Orchestrator) (r : Ref) (e : Option Error) → Steady o (tell_crash (count_crash o) r e)
crash-Steady o r e = elim (Bool-cases (is_set o.cfg.on_crash)) [
  | inl k ↦
      rw (k, tell_crash)
        (record {
          same_wg = refl;
          same_panic = refl;
          same_latch = λ j. refl;
          same_cfg = refl;
          tally = λ h. omega arith;
        })
  | inr k ↦
      rw (k, tell_crash)
        (record {
          same_wg = refl;
          same_panic = refl;
          same_latch = λ j. refl;
          same_cfg = refl;
          tally = λ h. cc (h, k);
        })
]

pub set_status_err-Steady :
    (o : Orchestrator) (r : Ref) (s : ServiceStatus) (e : Option Error)
    → Steady o (set_status_err o r s e)
unfolding set_status_err
set_status_err-Steady o r s e =
    let set = set_field o r s in
    let told = tell_change set r (o.store r).status s in
    let to_told =
      modify-Steady o r (λ q. record q { status = s }) refl
      then tell_change-Steady set r (o.store r).status s in
    if-Steady (is_crashed s) o (tell_crash (count_crash told) r e) told
      (to_told then crash-Steady told r e) to_told

pub set_status-Steady :
    (o : Orchestrator) (r : Ref) (s : ServiceStatus) → Steady o (set_status o r s)
unfolding set_status
set_status-Steady o r s = set_status_err-Steady o r s none

pub account_stop-Steady : (o : Orchestrator) (r : Ref) → Steady o (account_stop o r)
unfolding account_stop
account_stop-Steady o r = if-Steady (o.store r).stops_counted o _ _ (Steady-refl o) (
    modify-Steady o r (λ e. record e { stops_counted = true }) refl then record {
      same_wg = refl;
      same_panic = refl;
      same_latch = λ j. refl;
      same_cfg = refl;
      tally = λ h. refl;
    })

pub finish_stop-Steady : (o : Orchestrator) (r : Ref) (b : Bool) → Steady o (finish_stop o r b)
unfolding finish_stop
finish_stop-Steady o r b = if-Steady (is_succeeded (o.store r).status) o _ _ (Steady-refl o) (
    if-Steady b o _ _
      (set_status-Steady o r stopped then account_stop-Steady (set_status o r stopped) r)
      (set_status-Steady o r stopped))

pub begin_stop-Steady : (o : Orchestrator) (r : Ref) → Steady o (begin_stop o r).0
unfolding begin_stop
begin_stop-Steady o r =
    if-Steady (is_succeeded (o.store r).status) o _ _ (Steady-refl o)
      (set_status-Steady o r stopping)

pub record_abandoned-Steady : (o : Orchestrator) → Steady o (record_abandoned o)
unfolding record_abandoned
record_abandoned-Steady o = record {
  same_wg = refl;
  same_panic = refl;
  same_latch = λ j. refl;
  same_cfg = refl;
  tally = λ h. refl;
}

pub new_owner-Steady : (o : Orchestrator) (r : Ref) → Steady o (new_owner o r).0
unfolding new_owner add_owner_id
new_owner-Steady o r = modify-Steady o r (λ e. add_owner_id e (suc o.owner_seq)) refl then record {
  same_wg = refl;
  same_panic = refl;
  same_latch = λ j. refl;
  same_cfg = refl;
  tally = λ h. refl;
}

pub release_owner-Steady : (o : Orchestrator) (r : Ref) (id : ℕ) → Steady o (release_owner o r id)
unfolding release_owner remove_owner_id
release_owner-Steady o r id = if-Steady (id == 0) o _ _ (Steady-refl o) (
    modify-Steady o r (λ e. remove_owner_id e id) refl then record {
      same_wg = refl;
      same_panic = refl;
      same_latch = λ j. refl;
      same_cfg = refl;
      tally = λ h. refl;
    })
