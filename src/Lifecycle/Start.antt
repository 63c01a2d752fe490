-- ===== src/Lifecycle/Start.antt =====
-- lifecycle.go: startOneService, cut at the calls of the caller's code. What a hook, a condition or
-- the service's Start did is an input.
use gorch.Base.{
  ℕ, suc, if◌then◌else◌, Bool, true, false, ◌||◌, Option, none, some, ℤ, pos, is_zero, ltb_ℤ,
}
use gorch.Lifecycle.{
  is_failure, set_status, set_status_err, before_start_hook, after_start_hook, new_owner,
  release_owner,
}
use gorch.Orchestrator.{Ref, Orchestrator, modify, notify, after_start}
use gorch.Runtime.{Context, Chan, with_cancel, new_context, cancel?, make_chan}
use gorch.Service.Errors.{
  Error, Call, call_err, Result, ok, err, wraps, canceled, other, service_not_found,
}
use gorch.Status.{starting, running, stopped, crashed, succeeded}

abbrev pub set_starting : Orchestrator → Ref → Bool → Orchestrator
set_starting o r b = modify o r (λ e. record e { starting = b })

-- A start ends at once, with an error or nil, or goes on.
pub data Prelude : Type 0 where
  returns : Orchestrator → Option Error → Prelude
  goes_on : Orchestrator → Prelude

-- `o.setStatus(entry, StatusStopped)`, with the deferred reset of `starting`.
unfoldable pub give_back : Orchestrator → Ref → Option Error → Prelude
unfolding set_status
give_back o r e = returns (set_starting (set_status o r stopped) r false) e

unfoldable pub run_before_hook : Orchestrator → Ref → Call → Option Error
unfolding call_err
run_before_hook o r hook = elim (before_start_hook o r) [ none ↦ none | some f ↦ call_err hook ]

-- The condition: an error for a panic, or its answer; true if there is none.
abbrev pub condition : Orchestrator → Ref → Result Bool → Result Bool
condition o r cond = elim (o.store r).cfg.start_condition [ none ↦ ok true | some f ↦ cond ]

abbrev pub on_condition : Orchestrator → Ref → Result Bool → Prelude
on_condition o r (err e) = give_back o r (some e)
on_condition o r (ok false) = give_back o r none
on_condition o r (ok true) = goes_on o

-- startOneService up to StatusStarting.
unfoldable pub start_prelude : Orchestrator → Ref → Call → Result Bool → Prelude
start_prelude o r hook cond =
    if (o.store r).removed || (o.store r).removing
    then returns o (some (wraps service_not_found))
    else (let begun = modify o r (λ e. record e { starting = true; stops_counted = false }) in
        elim (run_before_hook begun r hook) [
          | some e ↦ give_back begun r (some e)
          | none ↦ on_condition begun r (condition begun r cond)
        ])

-- What startOneService holds of the new instance: its owner and its contexts.
pub record Instance : Type 0 where
  pub owner : ℕ
  pub entry_ctx : Context
  pub svc_ctx : Context

-- StatusStarting up to the choice between runOnce and a goroutine. `parent` is o.ctx, and `now` the
-- clock.
unfoldable pub prepare : Orchestrator → Ref → Context → ℕ → Orchestrator × Instance
unfolding set_status new_owner
prepare o r parent now =
    let owned = (new_owner (set_status o r starting) r).0 in
    let entry_ctx = with_cancel owned.rt parent in
    let under = new_context owned.rt in
    let svc_ctx = with_cancel under entry_ctx in
    (
      record (modify owned r (λ e. record e {
        teardown = some entry_ctx;
        teardown_cancel = some entry_ctx;
        cancel = some svc_ctx;
        started_at = now;
        stable_since = now;
      })) { rt = new_context under },
      record { owner = owned.owner_seq; entry_ctx = entry_ctx; svc_ctx = svc_ctx },
    )

abbrev pub timeout_of : Orchestrator → Ref → ℤ
timeout_of o r =
    let own = (o.store r).cfg.start_timeout in
    if is_zero own then o.cfg.default_start_timeout else own

unfoldable pub call_after_start_hook : Orchestrator → Ref → Option Error → Orchestrator
call_after_start_hook o r e = elim (after_start_hook o r) [
  | none ↦ o
  | some f ↦ notify o (after_start f (o.store r).name e)
]

abbrev pub count_start : Orchestrator → Orchestrator
count_start o = record o { metrics = record o.metrics { starts = suc o.metrics.starts } }

-- How the Start of a runOnce service ends: it comes back, the orchestrator shuts down first, or the
-- timeout passes first. The last two are only for a service with a timeout.
pub data Finish : Type 0 where
  came_back : Call → Finish
  shut_down timed_out : Finish

unfoldable pub finish_err : Finish → Option Error
unfolding call_err
finish_err (came_back c) = call_err c
finish_err shut_down = some canceled
finish_err timed_out = some other

-- err != nil && err != context.Canceled
abbrev pub is_once_failure : Option Error → Bool
is_once_failure none = false
is_once_failure (some canceled) = false
is_once_failure (some _) = true

abbrev pub drop_contexts : Orchestrator → Ref → Instance → Orchestrator
drop_contexts o r i =
    record (modify o r (λ e. record e { cancel = none; teardown = none; teardown_cancel = none })) {
      rt = cancel? (cancel? o.rt (some i.svc_ctx)) (some i.entry_ctx);
    }

unfoldable pub settle_once : Orchestrator → Ref → Option Error → Orchestrator × Option Error
unfolding set_status set_status_err call_after_start_hook
settle_once o r e =
    if is_once_failure e then (call_after_start_hook (set_status_err o r crashed e) r e, e) else (
      call_after_start_hook (set_status (modify o r (λ q. record q { wg_done = true })) r succeeded)
          r none,
      none,
    )

-- The branch of a runOnce service, with its deferred calls.
unfoldable pub run_once : Orchestrator → Ref → Instance → Finish → Orchestrator × Option Error
unfolding set_status release_owner
run_once o r i finish =
    let ran = count_start (set_status o r running) in
    let settled = settle_once (drop_contexts ran r i) r (finish_err finish) in
    (set_starting (release_owner settled.0 r i.owner) r false, settled.1)

-- A persistent service up to its goroutine: the wait group counts the instance, and `done` will tell
-- its end.
unfoldable pub launch : Orchestrator → Ref → Orchestrator × Chan
unfolding set_status
launch o r =
    let counted = count_start (set_status o r running) in
    let done = counted.rt.next_chan in
    (
      record (modify counted r (λ e. record e { wg_done = false; done = some done })) {
        wg = suc counted.wg;
        rt = make_chan counted.rt;
      },
      done,
    )

-- What startOneService waits for: the instance reports, or the timeout passes.
pub data Window : Type 0 where
  reported : Option Error → Window
  elapsed : Window

abbrev pub start_failure : Option Error → Option Error
start_failure e = if is_failure e then e else none

unfoldable pub on_window : Orchestrator → Ref → Instance → Window → Orchestrator × Option Error
unfolding call_after_start_hook
on_window o r i (reported e) =
    let failure = start_failure e in (call_after_start_hook o r failure, failure)
on_window o r i elapsed =
    let cut = record o { rt = cancel? o.rt (some i.svc_ctx) } in
    (call_after_start_hook cut r (some other), some other)

-- The rest of startOneService, after the launch and what other goroutines did since.
unfoldable pub start_finish : Orchestrator → Ref → Instance → Window → Orchestrator × Option Error
unfolding call_after_start_hook
start_finish o r i w =
    let ended =
      if ltb_ℤ (pos 0) (timeout_of o r)
      then on_window o r i w
      else (call_after_start_hook o r none, none) in
    (set_starting ended.0 r false, ended.1)
