-- ===== src/Lifecycle/Stopped/Ends.antt =====
-- The ends of the stop of one entry.
use gorch.Base.{
  if◌then◌else◌, Bool, Bool-cases, true, false, Option, none, ◌≡◌, refl, ◌⊎◌, sym, ap, subst, ◌∙◌,
  inl, inr,
}
use gorch.Lifecycle.{is_set, finish_stop}
use gorch.Lifecycle.Stop.{
  Run, Deadline, Meanwhile, no_deadline, stop_one_service_deadline, commit, cut_off, stop_entry,
  stop_entry_end, stop_one_service,
}
use mathlib.Core.Bool.{false≢true}
use gorch.Orchestrator.{Ref, Orchestrator}
use gorch.Service.Errors.{Error}
use gorch.Status.{ServiceStatus, is_succeeded, stopping, stopped}
use gorch.Lifecycle.Stopped.{after_begin, after_finish, finish_stop-Facts}
use gorch.Lifecycle.Stopped.Bills.{stop_one_service_deadline-Begun, joined-timeout}

-- The states that a stop goes through.
module _ (o : Orchestrator) (r : Ref) (d : Deadline) (others : Meanwhile) (hook stop : Run) where
  abbrev pub begun_in : Orchestrator
  begun_in = others.early (cut_off o r)

  abbrev pub ran_in : Orchestrator × Bool × Bool × Option Error
  ran_in = stop_one_service_deadline begun_in r d hook stop

  abbrev pub ended_in : Orchestrator
  ended_in = others.late ran_in.0

-- A stop without an error leaves the entry down, whatever else happens in it.
pub stop_entry-down :
    (o : Orchestrator) (r : Ref) (d : Deadline) (exited : Bool) (others : Meanwhile)
    (hook stop : Run)
    → (stop_entry o r d exited others hook stop).1 ≡ none
    → let s = ((stop_entry o r d exited others hook stop).0.store r).status in
      (s ≡ stopped) ⊎ (is_succeeded s ≡ true)
unfolding stop_entry stop_entry_end commit
stop_entry-down o r d exited others hook stop h = by_wait exited h
  where
    ran : Orchestrator × Bool × Bool × Option Error
    ran = ran_in o r d others hook stop

    last : Orchestrator
    last = ended_in o r d others hook stop

    reported : ran.2 ≡ false → is_set ran.3 ≡ true
    reported =
        (stop_one_service_deadline-Begun (begun_in o r d others hook stop) r _ _ _ d hook stop
          (record { has_status = refl; has_latch = refl; has_stops = refl })).reported

    finished :
        (s : ServiceStatus) → (after_finish s ≡ stopped) ⊎ (is_succeeded (after_finish s) ≡ true)
    finished s = elim (Bool-cases (is_succeeded s)) [
      | inl k ↦ inr (rw k k)
      | inr k ↦ inl (rw k refl)
    ]

    by_sequence :
        (b : Bool)
        → ran.2 ≡ b
        → ran.3 ≡ none
        → let s = ((if b then finish_stop last r ran.1 else last).store r).status in
          (s ≡ stopped) ⊎ (is_succeeded s ≡ true)
    by_sequence true k e =
        let done =
          finish_stop-Facts last r ran.1 (last.store r).status (last.store r).stops_counted
            last.metrics.stops (record { has_status = refl; has_latch = refl; has_stops = refl }) in
        subst (λ z. (z ≡ stopped) ⊎ (is_succeeded z ≡ true)) (sym done.0)
          (finished (last.store r).status)
    by_sequence false k e = absurd (false≢true (sym (ap is_set e) ∙ reported k))

    by_wait :
        (b : Bool)
        → (stop_entry_end last r ran.1 ran.2 b ran.3).1 ≡ none
        → let s = ((stop_entry_end last r ran.1 ran.2 b ran.3).0.store r).status in
          (s ≡ stopped) ⊎ (is_succeeded s ≡ true)
    by_wait true e = by_sequence ran.2 refl e
    by_wait false e = absurd (false≢true (sym (ap is_set e) ∙ joined-timeout ran.3))

-- A completed sequence with no deadline is committed.
pub stop_one_service-stopped :
    (o : Orchestrator) (r : Ref) (hook stop : Run)
    → is_succeeded (o.store r).status ≡ false
    → (stop_one_service_deadline o r no_deadline hook stop).2 ≡ true
    → ((stop_one_service o r hook stop).0.store r).status ≡ stopped
unfolding stop_one_service commit
stop_one_service-stopped o r hook stop down completed =
    let s = (o.store r).status in
    let c = (o.store r).stops_counted in
    let n = o.metrics.stops in
    let ran = stop_one_service_deadline o r no_deadline hook stop in
    let begun =
      stop_one_service_deadline-Begun o r s c n no_deadline hook stop
        (record { has_status = refl; has_latch = refl; has_stops = refl }) in
    let (status_after, _) = finish_stop-Facts ran.0 r ran.1 (after_begin s) c n begun.facts in
    rw (completed, stop_one_service)
      (status_after ∙ ap after_finish (ap (λ b. if b then s else stopping) down))
