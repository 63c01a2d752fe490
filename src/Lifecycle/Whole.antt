-- ===== src/Lifecycle/Whole.antt =====
-- lifecycle.go: Start and Stop of the whole orchestrator, around the starts and stops of entries.
-- The log pump and the health loop are left out. Whether a wait ended before its deadline is an input.
pub mod Order
pub mod Failure
use gorch.Base.{
  ℕ, zero, suc, if◌then◌else◌, Bool, true, false, not, ◌&&◌, ◌||◌, List, [], ◌∷◌, ◌++◌, Option,
  none, some, Name, name_discrete, ite, ltb_ℤ, pos, ℤ,
}
use gorch.Entry.{ServiceEntry, reset_entry_locked}
use gorch.Lifecycle.{record_abandoned, finish_stop, drain_service}
use gorch.Lifecycle.Stop.{Run, Deadline, stop_one_service_deadline}
use gorch.Messenger.{drain}
use gorch.Orchestrator.{Ref, Orchestrator, modify}
use gorch.Runtime.{with_cancel, new_context, cancel?}
use gorch.Service.Errors.{
  Error, Result, ok, err, reject_if, wraps, join?, already_started, start_aborted, stop_timeout,
}
use gorch.Status.{ServiceStatus, crashed, stopped, is_active}
use gorch.Topo.{topo_sort_for_stop}

abbrev pub no_spec : ServiceEntry → Bool
no_spec e = ite (name_discrete e.cfg.cron_spec "") true false

-- The entries of a list that pass a test, in order.
abbrev pub select : (ServiceEntry → Bool) → Orchestrator → List Ref → List Ref
select test o [] = []
select test o (r ∷ rs) = let rest = select test o rs in if test (o.store r) then r ∷ rest else rest

abbrev pub is_persistent : ServiceEntry → Bool
is_persistent e = no_spec e && not e.cfg.run_once

abbrev pub is_not_persistent : ServiceEntry → Bool
is_not_persistent e = e.cfg.run_once || not (no_spec e)

unfoldable pub persistent_entries : Orchestrator → List Ref
persistent_entries o = select is_persistent o o.entries

unfoldable pub non_persistent_entries : Orchestrator → List Ref
non_persistent_entries o = select is_not_persistent o o.entries

-- The claim of Start.
unfoldable pub claim_start : Orchestrator → Orchestrator × Result (Unit {0})
claim_start o =
    if o.started || o.start_claimed
    then (o, err (wraps already_started))
    else (record o { start_claimed = true }, ok tt)

-- Every entry of the snapshot is reserved, and forgets the id of an old schedule.
abbrev pub reserve : Orchestrator → List Ref → Orchestrator
reserve o [] = o
reserve o (r ∷ rs) =
    reserve (modify o r (λ e. record e { starting = true; cron_id = 0; logger = some e.name })) rs

-- What startOnce publishes under the locks, and the loggers.
unfoldable pub publish_start : Orchestrator → Orchestrator
publish_start o =
    reserve
      (record o {
        started = true;
        start_once = true;
        stop_once = false;
        ctx = some (with_cancel o.rt []);
        rt = new_context o.rt;
      })
      o.entries

-- `defer o.clearStarting(entries)`
unfoldable pub clear_starting : Orchestrator → List Ref → Orchestrator
clear_starting o [] = o
clear_starting o (r ∷ rs) = clear_starting (modify o r (λ e. record e { starting = false })) rs

-- Start's own split of the snapshot: cron entries are in neither list.
abbrev pub run_once_of : Orchestrator → List Ref → List Ref
run_once_of = select (λ e. no_spec e && e.cfg.run_once)

abbrev pub persistent_of : Orchestrator → List Ref → List Ref
persistent_of = select is_persistent

-- depStatus == StatusCrashed || depStatus == StatusStopped
abbrev pub failed_or_skipped : ServiceStatus → Bool
failed_or_skipped crashed = true
failed_or_skipped stopped = true
failed_or_skipped _ = false

-- Whether the dependencies let an entry of a level start; a hard one that the index lacks would be a
-- nil pointer.
pub data Gate : Type 0 where
  nil_entry aborted passes : Gate

abbrev pub gate_soft : Orchestrator → (Name → Option Ref) → List Name → Gate
gate_soft o name_index [] = passes
gate_soft o name_index (dep ∷ deps) =
    let rest = gate_soft o name_index deps in
    elim (name_index dep) [
      | none ↦ rest
      | some r ↦ if failed_or_skipped (o.store r).status then aborted else rest
    ]

unfoldable pub gate : Orchestrator → (Name → Option Ref) → List Name → List Name → Gate
gate o name_index [] soft = gate_soft o name_index soft
gate o name_index (dep ∷ deps) soft =
    let rest = gate o name_index deps soft in
    elim (name_index dep) [
      | none ↦ nil_entry
      | some r ↦ if failed_or_skipped (o.store r).status then aborted else rest
    ]

unfoldable pub reset_entries : Orchestrator → List Ref → Orchestrator
unfolding reset_entry_locked
reset_entries o [] = o
reset_entries o (r ∷ rs) =
    let reset = reset_entry_locked o.rt (o.store r) in
    reset_entries (record (modify o r (λ e. record (reset.1) { logger = none })) { rt = reset.0 })
      rs

-- `if !o.awaitDone(ch, deadline)`, with what it adds to the error.
unfoldable pub await : Bool → Orchestrator → Option Error → Orchestrator × Option Error
unfolding record_abandoned join?
await true o e = (o, e)
await false o e = (record_abandoned o, join? e (some (wraps stop_timeout)))

-- resetAfterStartFailure, where `exited` and `pumped` tell whether the goroutines and the log pump
-- ended before the deadline.
unfoldable pub reset_after_start_failure :
    Orchestrator → List Ref → Bool → Bool → Orchestrator × Option Error
unfolding await reset_entries
reset_after_start_failure o entries exited pumped =
    let waited = await exited o none in
    let drained = await pumped waited.0 waited.1 in
    (
      reset_entries
          (record drained.0 {
            started = false;
            start_claimed = false;
            stopping = false;
            stopped = false;
            ctx = none;
            start_once = false;
            stop_once = false;
          })
          entries,
      drained.1,
    )

-- The levels from the last to the first, each in its order.
abbrev pub last_first : List (List Ref) → List Ref
last_first [] = []
last_first (level ∷ levels) = last_first levels ++ level

-- The order in which Stop stops the entries, with topoErr.
unfoldable pub stop_order : Orchestrator → Option (List Ref × Option Error)
unfolding topo_sort_for_stop persistent_entries non_persistent_entries
stop_order o = elim (topo_sort_for_stop o.store (persistent_entries o)) [
  | none ↦ none
  | some (levels, e) ↦ some (last_first levels ++ non_persistent_entries o, e)
]

-- The first critical sections of stopOnce: nothing where the orchestrator was not started.
unfoldable pub begin_shutdown : Orchestrator → Orchestrator × Bool
begin_shutdown o =
    if o.stop_once
    then (o, false)
    else if o.started
    then (record o { stop_once = true; stopping = true; rt = cancel? o.rt o.ctx }, true)
    else (record o { stop_once = true; shutdown_done = true }, false)

-- pendingStop
pub record PendingStop : Type 0 where
  pub entry : Ref
  pub was_active : Bool
  pub completed : Bool

-- What the calls of one entry's code do, in its stop.
pub record Calls : Type 0 where
  pub deadline : Deadline
  pub hook : Run
  pub stop : Run

-- stopOne over the order.
unfoldable pub stop_each :
    Orchestrator → (Ref → Calls) → List Ref → Orchestrator × List PendingStop × Option Error
unfolding stop_one_service_deadline join?
stop_each o calls [] = (o, [], none)
stop_each o calls (r ∷ rs) =
    let (o', was_active, completed, e) =
      stop_one_service_deadline o r (calls r).deadline (calls r).hook (calls r).stop in
    let rest = stop_each o' calls rs in
    (
      rest.0,
      record { entry = r; was_active = was_active; completed = completed } ∷ rest.1,
      join? e rest.2,
    )

unfoldable pub finish_all : Orchestrator → List PendingStop → Orchestrator
unfolding finish_stop
finish_all o [] = o
finish_all o (p ∷ ps) =
    finish_all (if p.completed then finish_stop o p.entry p.was_active else o) ps

-- From the drain of the messenger to the end of Stop, where `all_done` tells whether every goroutine
-- ended before the deadline.
unfoldable pub finish_shutdown :
    Orchestrator → List PendingStop → Bool → Option Error → Orchestrator × Option Error
unfolding drain finish_all record_abandoned join?
finish_shutdown o pending all_done e =
    let drained = record o { messenger = drain o.messenger } in
    let waited : Orchestrator × Option Error =
      if all_done
      then (finish_all drained pending, e)
      else (record_abandoned drained, join? e (some (wraps stop_timeout))) in
    (record waited.0 { stopping = false; stopped = true; shutdown_done = true }, waited.1)

-- Stop, on a started orchestrator.
unfoldable pub shut_down_in :
    Orchestrator → (Ref → Calls) → Bool → List Ref × Option Error → Orchestrator × Option Error
unfolding stop_each finish_shutdown join?
shut_down_in o calls all_done (order, topo_err) =
    let ran = stop_each o calls order in finish_shutdown ran.0 ran.1 all_done (join? topo_err ran.2)

unfoldable pub shutdown : Orchestrator → (Ref → Calls) → Bool → Option (Orchestrator × Option Error)
unfolding begin_shutdown stop_order
shutdown o calls all_done =
    let begun = begin_shutdown o in
    if begun.1
    then elim (stop_order begun.0) [
      | none ↦ none
      | some order ↦ some (shut_down_in begun.0 calls all_done order)
    ]
    else some (begun.0, none)
