-- ===== src/Lifecycle/Steady/Exits.antt =====
-- The parts of handleServiceDone that leave the wait group alone.
use gorch.Base.{
  ℕ, suc, if◌then◌else◌, true, false, Bool, Bool-cases, not, ◌&&◌, Option, some, ltb_ℤ, pos, ◌≡◌,
  refl, inl, inr,
}
use gorch.Entry.{release_teardown_if, same?}
use gorch.Lifecycle.{is_failure, set_status, release_owner, new_owner}
use gorch.Lifecycle.Exit.{
  is_torn_down, count_stopped, settle, release_teardown, reset_retries, report_crash, give_up,
  count_retry, report_gone, install, restart,
}
use gorch.Lifecycle.Stop.{Run, run_stop_sequence}
use gorch.Lifecycle.Steady.{
  Steady, Steady-refl, ◌then◌, if-Steady, modify-Steady, set_status-Steady, set_status_err-Steady,
  account_stop-Steady, release_owner-Steady, new_owner-Steady,
}
use gorch.Lifecycle.Steady.Stops.{run_stop_sequence-Steady}
use gorch.Orchestrator.{Ref, Orchestrator, modify}
use gorch.Runtime.{Context, cancel?, with_cancel, new_context, make_chan}
use gorch.Service.{Service}
use gorch.Service.Errors.{Error}
use gorch.Status.{running, stopped, crashed}

count_stopped-Steady : (o : Orchestrator) (r : Ref) → Steady o (count_stopped o r)
unfolding count_stopped
count_stopped-Steady o r =
    set_status-Steady o r stopped then account_stop-Steady (set_status o r stopped) r

pub settle-Steady : (o : Orchestrator) (r : Ref) (e : Option Error) → Steady o (settle o r e)
unfolding settle
settle-Steady o r e = if-Steady (o.store r).removing o _ _ (Steady-refl o) (
    if-Steady (is_torn_down o r) o _ _ (count_stopped-Steady o r) (
      if-Steady (is_failure e) o _ _ (set_status_err-Steady o r crashed e)
        (count_stopped-Steady o r)))

pub release_teardown-Steady :
    (o : Orchestrator) (r : Ref) (c : Option Context) → Steady o (release_teardown o r c)
unfolding release_teardown release_teardown_if
release_teardown-Steady o r c =
    modify-Steady o r (λ e. (release_teardown_if o.rt (o.store r) c).1) same_latch then record {
      same_wg = refl;
      same_panic = refl;
      same_latch = λ j. refl;
      same_cfg = refl;
      tally = λ h. refl;
    }
  where
    same_latch : (release_teardown_if o.rt (o.store r) c).1.wg_done ≡ (o.store r).wg_done
    same_latch = elim (Bool-cases (same? (o.store r).teardown c)) [
      | inl k ↦ rw (k, release_teardown_if) refl
      | inr k ↦ rw (k, release_teardown_if) refl
    ]

pub reset_retries-Steady : (o : Orchestrator) (r : Ref) (b : Bool) → Steady o (reset_retries o r b)
reset_retries-Steady o r b =
    if-Steady (ltb_ℤ (pos 0) (o.store r).cfg.reset_after && b) o _ _
      (modify-Steady o r (λ e. record e { retry_count = 0 }) refl) (Steady-refl o)

pub report_crash-Steady :
    (o : Orchestrator) (r : Ref) (e : Option Error) → Steady o (report_crash o r e)
unfolding report_crash
report_crash-Steady o r e =
    if-Steady (is_failure e && not (is_torn_down o r)) o _ _ (set_status_err-Steady o r crashed e)
      (Steady-refl o)

pub give_up-Steady : (o : Orchestrator) (r : Ref) (e : Option Error) → Steady o (give_up o r e)
unfolding give_up
give_up-Steady o r e = if-Steady (o.store r).removing o _ _ (Steady-refl o) (
    if-Steady (is_torn_down o r) o _ _ (set_status-Steady o r stopped)
      (if-Steady (is_failure e) o _ _ (Steady-refl o) (set_status_err-Steady o r crashed e)))

pub wait-Steady :
    (o : Orchestrator) (r : Ref) (e : Option Error) (owner : ℕ)
    → Steady o (release_owner (report_gone (count_retry o r) r e) r owner)
unfolding report_gone
wait-Steady o r e owner =
    let counted = count_retry o r in
    modify-Steady o r (λ q. record q { retry_count = suc q.retry_count }) refl
    then if-Steady (not (is_failure e) && not (is_torn_down counted r)) counted _ _
        (set_status-Steady counted r stopped) (Steady-refl counted)
    then release_owner-Steady (report_gone counted r e) r owner

install-Steady :
    (o : Orchestrator) (r : Ref) (teardown : Context) (svc : Service) (now : ℕ)
    → Steady o (install o r teardown svc now).0
unfolding install
install-Steady o r teardown svc now =
    let renewed =
      record (modify o r (λ e. record e {
        stops_counted = false;
        svc = svc;
        logger = some e.name;
        stable_since = now;
        cancel = some (with_cancel o.rt teardown);
      })) { rt = new_context o.rt } in
    let owned = (new_owner renewed r).0 in
    let opened = modify owned r (λ e. record e { done = some owned.rt.next_chan }) in
    modify-Steady o r
      (λ e. record e {
        stops_counted = false;
        svc = svc;
        logger = some e.name;
        stable_since = now;
        cancel = some (with_cancel o.rt teardown);
      })
      refl
    then record {
      same_wg = refl;
      same_panic = refl;
      same_latch = λ j. refl;
      same_cfg = refl;
      tally = λ h. refl;
    }
    then new_owner-Steady renewed r
    then modify-Steady owned r (λ e. record e { done = some owned.rt.next_chan }) refl
    then record {
      same_wg = refl;
      same_panic = refl;
      same_latch = λ j. refl;
      same_cfg = refl;
      tally = λ h. refl;
    }
    then set_status-Steady (record opened { rt = make_chan owned.rt }) r running

pub restart-Steady :
    (o : Orchestrator) (r : Ref) (teardown : Context) (hook stop : Run) (svc : Service) (now : ℕ)
    → Steady o (restart o r teardown hook stop svc now)
unfolding restart
restart-Steady o r teardown hook stop svc now =
    let cut = record o { rt = cancel? o.rt (o.store r).cancel } in
    let cleaned = (run_stop_sequence cut r true hook stop).0 in
    record {
      same_wg = refl;
      same_panic = refl;
      same_latch = λ j. refl;
      same_cfg = refl;
      tally = λ h. refl;
    }
    then run_stop_sequence-Steady cut r true hook stop
    then install-Steady cleaned r teardown svc now
    then record {
      same_wg = refl;
      same_panic = refl;
      same_latch = λ j. refl;
      same_cfg = refl;
      tally = λ h. refl;
    }
