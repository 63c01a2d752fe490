-- ===== src/Ticks.antt =====
-- cron.go: one tick of a cron service, up to its call of Start and after it. The lock that CronQueue
-- waits for orders the ticks only, and is left out.
pub mod Flags
pub mod Skip
use gorch.Base.{
  ℕ, suc, ◌==◌, if◌then◌else◌, Bool, true, false, ◌&&◌, List, [], ◌∷◌, Option, none, some, ite,
  name_discrete,
}
use gorch.Cron.{cron_begin, cron_end, start_cron_schedule}
use gorch.Lifecycle.{is_failure, new_owner, release_owner, set_status}
use gorch.Orchestrator.{Ref, Orchestrator, modify}
use gorch.Runtime.{Context, with_cancel, new_context, cancel?}
use gorch.Service.{CronMode, cron_skip}
use gorch.Service.Errors.{Error, Result, ok, err, wraps, Call, call_err, invalid_cron}
use gorch.Status.{running}

abbrev pub is_skip : CronMode → Bool
is_skip cron_skip = true
is_skip _ = false

-- `defer entry.cronEnd(gen)`
unfoldable pub end_tick : Orchestrator → Ref → ℕ → Orchestrator
unfolding cron_end
end_tick o r gen =
    let ended = cron_end o.rt (o.store r).track gen in
    record (modify o r (λ e. record e { track = ended.1 })) { rt = ended.0 }

-- A tick is refused by the accounting, skipped as another one runs, or calls Start under an owner and a
-- context of its own.
pub data Tick : Type 0 where
  refused_tick : Orchestrator → Tick
  skipped : Orchestrator → Tick
  invoked : Orchestrator → ℕ → Context → Tick

abbrev pub set_running : Orchestrator → Ref → Bool → Orchestrator
set_running o r b = modify o r (λ e. record e { running = b })

unfoldable pub call_start : Orchestrator → Ref → Context → Tick
unfolding new_owner
call_start o r parent =
    let owned = (new_owner o r).0 in
    invoked (record owned { rt = new_context owned.rt }) owned.owner_seq
      (with_cancel owned.rt parent)

-- By whether the mode is CronSkip, and the entry runs.
unfoldable pub admit_by : Bool → Bool → Orchestrator → Ref → ℕ → Context → Tick
unfolding end_tick call_start
admit_by true true o r gen parent = skipped (end_tick o r gen)
admit_by true false o r gen parent = call_start (set_running o r true) r parent
admit_by false runs o r gen parent = call_start o r parent

unfoldable pub admit : Orchestrator → Ref → ℕ → Context → Tick
unfolding admit_by
admit o r gen parent =
    let e = o.store r in admit_by (is_skip e.cfg.cron_mode) e.running o r gen parent

abbrev pub on_begin : Orchestrator → Ref → ℕ → Option Context → Tick
on_begin o r gen none = refused_tick o
on_begin o r gen (some parent) = admit o r gen parent

-- invokeCron up to the call of Start.
unfoldable pub invoke_cron_begin : Orchestrator → Ref → ℕ → Tick
unfolding cron_begin
invoke_cron_begin o r gen =
    let begun = cron_begin o.rt (o.store r).track gen in
    on_begin (modify o r (λ e. record e { track = begun.0 })) r gen begun.1

abbrev pub count_cron_failure : Orchestrator → Option Error → Orchestrator
count_cron_failure o e =
    if is_failure e
    then record o { metrics = record o.metrics { cron_failures = suc o.metrics.cron_failures } }
    else o

-- After Start, with its deferred calls.
unfoldable pub invoke_cron_end : Orchestrator → Ref → ℕ → ℕ → Context → Call → Orchestrator
unfolding call_err release_owner end_tick
invoke_cron_end o r gen owner ctx call =
    let counted = count_cron_failure o (call_err call) in
    let cancelled = record counted { rt = cancel? counted.rt (some ctx) } in
    let released = release_owner cancelled r owner in
    let idle =
      if is_skip (o.store r).cfg.cron_mode then set_running released r false else released in
    end_tick idle r gen

-- scheduleEntry, where `added` is what the cron library answers: an id, or its error.
unfoldable pub schedule_entry :
    Orchestrator → Ref → Context → Option ℕ → Orchestrator × Result (Unit {0})
unfolding start_cron_schedule
schedule_entry o r parent added =
    let started = start_cron_schedule o.rt (o.store r).track parent in
    let scheduled = record (modify o r (λ e. record e { track = started.1 })) { rt = started.0 } in
    elim added [
      | none ↦ (scheduled, err (wraps invalid_cron))
      | some id ↦ (modify scheduled r (λ e. record e { cron_id = id }), ok tt)
    ]

abbrev pub count_cron_start : Orchestrator → Orchestrator
count_cron_start o = record o { metrics = record o.metrics { starts = suc o.metrics.starts } }

unfoldable pub announce : Orchestrator → Ref → Result (Unit {0}) → Orchestrator × Result (Unit {0})
unfolding set_status
announce o r (err e) = (o, err e)
announce o r (ok u) = (count_cron_start (set_status o r running), ok u)

unfoldable pub start_cron_entry :
    Orchestrator → Ref → Context → Option ℕ → Orchestrator × Result (Unit {0})
unfolding schedule_entry announce
start_cron_entry o r parent added =
    let scheduled = schedule_entry o r parent added in
    if (o.store r).cron_id == 0 then announce scheduled.0 r scheduled.1 else announce o r (ok tt)

-- setupCron, up to the start of the library's scheduler.
unfoldable pub setup_cron :
    Orchestrator → Context → (Ref → Option ℕ) → List Ref → Orchestrator × Result (Unit {0})
unfolding start_cron_entry
setup_cron o parent added [] = (o, ok tt)
setup_cron o parent added (r ∷ rs) =
    let skipping = setup_cron o parent added rs in
    let started = start_cron_entry o r parent (added r) in
    let going = setup_cron started.0 parent added rs in
    ite (name_discrete (o.store r).cfg.cron_spec "") skipping
      (elim started.1 [ err e ↦ (started.0, err e) | ok u ↦ going ])
