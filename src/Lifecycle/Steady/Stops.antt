-- ===== src/Lifecycle/Steady/Stops.antt =====
-- The stop of an entry leaves the wait group alone.
use gorch.Base.{
  if◌then◌else◌, Bool, true, false, Option, Option-cases, Bool-cases, name_discrete, ltb_ℤ, pos,
  refl, inl, inr,
}
use gorch.Cron.{cron_drain}
use gorch.Lifecycle.{begin_stop, after_stop_hook, stop_hook}
use gorch.Lifecycle.Stop.{
  Run, on_time, late, timed, hook_overrun, call_before_stop_hook, stop_service_bounded,
  tell_after_stop, run_stop_sequence, Deadline, no_deadline, met, missed, stop_one_service_deadline,
  commit, cut_off, stop_entry_end, cancel_entry, drain_ticks, remove_cron_entry,
}
use gorch.Orchestrator.{Ref, Orchestrator}
use gorch.Service.Errors.{Error, other}
use gorch.Lifecycle.Steady.{
  Steady, Steady-refl, ◌then◌, if-Steady, if-Steady_pair, ite-Steady, modify-Steady, notify-Steady,
  finish_stop-Steady, begin_stop-Steady, record_abandoned-Steady,
}

pub timed-Steady : (o : Orchestrator) (e : Error) (run : Run) → Steady o (timed o e run).0
unfolding timed
timed-Steady o e (on_time c) = Steady-refl o
timed-Steady o e (late c) = record_abandoned-Steady o

pub run_stop_sequence-Steady :
    (o : Orchestrator) (r : Ref) (bounded : Bool) (hook stop : Run)
    → Steady o (run_stop_sequence o r bounded hook stop).0
unfolding run_stop_sequence call_before_stop_hook stop_service_bounded tell_after_stop
run_stop_sequence-Steady o r bounded hook stop =
    let hooked = call_before_stop_hook o r bounded hook in
    let ran = stop_service_bounded hooked.0 r stop in
    hook_steady then stop_steady hooked.0 then told_steady ran.0 ran.1
  where
    hook_steady : Steady o (call_before_stop_hook o r bounded hook).0
    hook_steady = elim (Option-cases (stop_hook o r)) [
      | inl e ↦ rw (e, call_before_stop_hook) (Steady-refl o)
      | inr (f, e) ↦
          rw (e, call_before_stop_hook)
            (if-Steady_pair bounded o _ _ (timed-Steady o hook_overrun hook) (Steady-refl o))
    ]

    stop_steady : (a : Orchestrator) → Steady a (stop_service_bounded a r stop).0
    stop_steady a = elim (Bool-cases (ltb_ℤ (pos 0) (a.store r).cfg.stop_timeout)) [
      | inl k ↦ rw (k, stop_service_bounded) (timed-Steady a other stop)
      | inr k ↦ rw (k, stop_service_bounded) (Steady-refl a)
    ]

    told_steady : (a : Orchestrator) (e : Option Error) → Steady a (tell_after_stop a r e)
    told_steady a e = elim (Option-cases (after_stop_hook a r)) [
      | inl k ↦ rw (k, tell_after_stop) (Steady-refl a)
      | inr (f, k) ↦ rw (k, tell_after_stop) (notify-Steady a _ refl)
    ]

pub stop_one_service_deadline-Steady :
    (o : Orchestrator) (r : Ref) (d : Deadline) (hook stop : Run)
    → Steady o (stop_one_service_deadline o r d hook stop).0
unfolding stop_one_service_deadline
stop_one_service_deadline-Steady o r missed hook stop =
    begin_stop-Steady o r then record_abandoned-Steady (begin_stop o r).0
stop_one_service_deadline-Steady o r met hook stop =
    begin_stop-Steady o r then run_stop_sequence-Steady (begin_stop o r).0 r true hook stop
stop_one_service_deadline-Steady o r no_deadline hook stop =
    begin_stop-Steady o r then run_stop_sequence-Steady (begin_stop o r).0 r false hook stop

pub cut_off-Steady : (o : Orchestrator) (r : Ref) → Steady o (cut_off o r)
unfolding cut_off remove_cron_entry drain_ticks
cut_off-Steady o r = ite-Steady (name_discrete (o.store r).cfg.cron_spec "") o _ _ cancelled (
    cancelled
    then modify-Steady (cancel_entry o r) r (λ e. record e { cron_id = 0 }) refl
    then drained (remove_cron_entry (cancel_entry o r) r))
  where
    cancelled : Steady o (cancel_entry o r)
    cancelled = record {
      same_wg = refl;
      same_panic = refl;
      same_latch = λ j. refl;
      same_cfg = refl;
      tally = λ h. refl;
    }

    drained : (a : Orchestrator) → Steady a (drain_ticks a r)
    drained a =
        let drain = cron_drain a.rt (a.store r).track in
        modify-Steady a r (λ e. record e { track = drain.1 }) refl then record {
          same_wg = refl;
          same_panic = refl;
          same_latch = λ j. refl;
          same_cfg = refl;
          tally = λ h. refl;
        }

pub stop_entry_end-Steady :
    (o : Orchestrator) (r : Ref) (was_active completed exited : Bool) (e : Option Error)
    → Steady o (stop_entry_end o r was_active completed exited e).0
unfolding stop_entry_end commit
stop_entry_end-Steady o r was_active completed exited e =
    if-Steady_pair exited o _ _
      (if-Steady completed o _ _ (finish_stop-Steady o r was_active) (Steady-refl o))
      (Steady-refl o)
