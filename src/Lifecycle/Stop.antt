-- ===== src/Lifecycle/Stop.antt =====
-- lifecycle.go and membership.go: the stop of one service. Whether a call of the caller's code
-- returned before its timer is an input, as is what the call did.
use gorch.Base.{
  if◌then◌else◌, Bool, true, false, not, ◌&&◌, ◌==◌, List, [], ◌∷◌, map, Option, none, some, pos,
  ltb_ℤ, name_discrete, ite,
}
use gorch.Cron.{cron_drain}
use gorch.Lifecycle.{
  begin_stop, finish_stop, record_abandoned, stop_hook, after_stop_hook, drain_service,
}
use gorch.Membership.{mark_removing, remove_entry_locked}
use gorch.Orchestrator.{Ref, Orchestrator, modify, notify, after_stop}
use gorch.Runtime.{cancel?}
use gorch.Service.Errors.{
  Error, Call, call_err, is, join?, wraps, other, join, hook_timeout, stop_timeout,
}
use gorch.Status.{is_stopping}

-- A call in a goroutine of its own, and a timer that runs beside it.
pub data Run : Type 0 where
  on_time : Call → Run
  late : Call → Run

abbrev pub outcome : Run → Call
outcome (on_time c) = c
outcome (late c) = c

-- What the timer finds: the call is abandoned, or its error.
unfoldable pub timed : Orchestrator → Error → Run → Orchestrator × Option Error × Bool
unfolding call_err record_abandoned
timed o e (on_time c) = (o, call_err c, true)
timed o e (late c) = (record_abandoned o, some e, false)

abbrev pub hook_overrun : Error
hook_overrun = join (wraps hook_timeout) (wraps stop_timeout)

-- `bounded` is false for the zero deadline, which waits for the hook.
unfoldable pub call_before_stop_hook : Orchestrator → Ref → Bool → Run → Orchestrator × Option Error
unfolding stop_hook timed call_err
call_before_stop_hook o r bounded run = elim (stop_hook o r) [
  | none ↦ (o, none)
  | some f ↦
      if bounded
      then (let ran = timed o hook_overrun run in (ran.0, ran.1))
      else (o, call_err (outcome run))
]

-- Stop() with its per-service timeout, and whether it returned.
unfoldable pub stop_service_bounded : Orchestrator → Ref → Run → Orchestrator × Option Error × Bool
unfolding timed call_err
stop_service_bounded o r run =
    if ltb_ℤ (pos 0) (o.store r).cfg.stop_timeout
    then timed o other run
    else (o, call_err (outcome run), true)

unfoldable pub tell_after_stop : Orchestrator → Ref → Option Error → Orchestrator
unfolding after_stop_hook
tell_after_stop o r e = elim (after_stop_hook o r) [
  | none ↦ o
  | some f ↦ notify o (after_stop f (o.store r).name e)
]

unfoldable pub is? : Option Error → Bool
unfolding is
is? none = false
is? (some e) = is e hook_timeout

-- The error of the sequence, and whether it is complete.
unfoldable pub run_stop_sequence :
    Orchestrator → Ref → Bool → Run → Run → Orchestrator × Option Error × Bool
unfolding call_before_stop_hook stop_service_bounded join?
run_stop_sequence o r bounded hook stop =
    let hooked = call_before_stop_hook o r bounded hook in
    let ran = stop_service_bounded hooked.0 r stop in
    (tell_after_stop ran.0 r ran.1, join? hooked.1 ran.1, not (is? hooked.1) && ran.2)

-- The deadline of the caller: none, one that the sequence meets, or one that it is abandoned at. What
-- an abandoned sequence still does is not part of the stop.
pub data Deadline : Type 0 where
  no_deadline met missed : Deadline

unfoldable pub stop_one_service_deadline :
    Orchestrator → Ref → Deadline → Run → Run → Orchestrator × Bool × Bool × Option Error
unfolding begin_stop run_stop_sequence record_abandoned
stop_one_service_deadline o r missed hook stop =
    let begun = begin_stop o r in
    (record_abandoned begun.0, begun.1, false, some (wraps stop_timeout))
stop_one_service_deadline o r met hook stop =
    let begun = begin_stop o r in
    let ran = run_stop_sequence begun.0 r true hook stop in (ran.0, begun.1, ran.2, ran.1)
stop_one_service_deadline o r no_deadline hook stop =
    let begun = begin_stop o r in
    let ran = run_stop_sequence begun.0 r false hook stop in (ran.0, begun.1, ran.2, ran.1)

-- `if completed { o.finishStop(entry, wasActive) }`
unfoldable pub commit : Orchestrator → Ref → Bool → Bool → Orchestrator
unfolding finish_stop
commit o r was_active completed = if completed then finish_stop o r was_active else o

unfoldable pub stop_one_service : Orchestrator → Ref → Run → Run → Orchestrator × Option Error
unfolding stop_one_service_deadline
stop_one_service o r hook stop =
    let (o', was_active, completed, e) = stop_one_service_deadline o r no_deadline hook stop in
    (commit o' r was_active completed, e)

-- A cancel func of an entry, called if there is one.
abbrev pub cancel_entry : Orchestrator → Ref → Orchestrator
cancel_entry o r =
    let e = o.store r in record o { rt = cancel? (cancel? o.rt e.teardown_cancel) e.cancel }

-- removeCronEntry, less the call that takes the id out of the table of the cron library.
unfoldable pub remove_cron_entry : Orchestrator → Ref → Orchestrator
remove_cron_entry o r = modify o r (λ e. record e { cron_id = 0 })

unfoldable pub drain_ticks : Orchestrator → Ref → Orchestrator
unfolding cron_drain
drain_ticks o r =
    let drained = cron_drain o.rt (o.store r).track in
    record (modify o r (λ e. record e { track = drained.1 })) { rt = drained.0 }

-- What a stop waits for is cut off first: the instance, or the ticks of a cron entry.
unfoldable pub cut_off : Orchestrator → Ref → Orchestrator
unfolding remove_cron_entry
cut_off o r =
    let cancelled = cancel_entry o r in
    ite (name_discrete (o.store r).cfg.cron_spec "") cancelled
      (drain_ticks (remove_cron_entry cancelled r) r)

-- The end of a stop. `exited` is awaitDone: what the stop waits for ended before the deadline, or there
-- is nothing.
unfoldable pub stop_entry_end :
    Orchestrator → Ref → Bool → Bool → Bool → Option Error → Orchestrator × Option Error
unfolding commit join?
stop_entry_end o r was_active completed exited e =
    if exited
    then (commit o r was_active completed, e)
    else (o, join? e (some (wraps stop_timeout)))

-- What other goroutines do to the state while a stop runs, with no lock held: `early` after the cut and
-- before Stopping is set, `late` from then to the end of the wait. The exit handler of the instance that
-- the stop waits for is in one of them, as is what the caller's own code does in its calls.
pub record Meanwhile : Type 0 where
  pub early : Orchestrator → Orchestrator
  pub late : Orchestrator → Orchestrator

abbrev pub undisturbed : Meanwhile
undisturbed = record { early = λ o. o; late = λ o. o }

unfoldable pub stop_entry :
    Orchestrator → Ref → Deadline → Bool → Meanwhile → Run → Run → Orchestrator × Option Error
unfolding cut_off stop_one_service_deadline stop_entry_end
stop_entry o r deadline exited others hook stop =
    let (o', was_active, completed, e) =
      stop_one_service_deadline (others.early (cut_off o r)) r deadline hook stop in
    stop_entry_end (others.late o') r was_active completed exited e

-- One entry of the set that a teardown stops, with what its calls do.
pub record Planned : Type 0 where
  pub entry : Ref
  pub deadline : Deadline
  pub exited : Bool
  pub others : Meanwhile
  pub hook : Run
  pub stop : Run

-- The loop of tearDown: a dependent that a stopping orchestrator tears down is left to it.
unfoldable pub stop_set : Orchestrator → Ref → List Planned → Orchestrator × Option Error
unfolding stop_entry join?
stop_set o target [] = (o, none)
stop_set o target (p ∷ ps) =
    let skipped = stop_set o target ps in
    let stopped = stop_entry o p.entry p.deadline p.exited p.others p.hook p.stop in
    let later = stop_set stopped.0 target ps in
    if not (p.entry == target) && is_stopping (o.store p.entry).status
    then skipped
    else (later.0, join? stopped.1 later.1)

unfoldable pub remove_all : Orchestrator → List Ref → Orchestrator
unfolding remove_entry_locked
remove_all o [] = o
remove_all o (r ∷ rs) = remove_all (remove_entry_locked o r) rs

unfoldable pub drain_all : Orchestrator → List Ref → Orchestrator
unfolding drain_service
drain_all o [] = o
drain_all o (r ∷ rs) = drain_all (drain_service o r) rs

-- tearDown after its loop: the removal, the drains and the marks, which a deferred call takes back.
unfoldable pub tear_down_end : Orchestrator → Bool → List Ref → Orchestrator
unfolding remove_all drain_all
tear_down_end o remove set =
    let removed = if remove then remove_all o set else o in
    mark_removing false (drain_all removed set) set

-- tearDown after its reservation.
unfoldable pub tear_down_finish :
    Orchestrator → Ref → Bool → List Planned → Orchestrator × Option Error
unfolding stop_set tear_down_end
tear_down_finish o target remove plan =
    let stopped = stop_set o target plan in
    (tear_down_end stopped.0 remove (map (λ (p : Planned). p.entry) plan), stopped.1)
