-- ===== src/Lifecycle.antt =====
-- lifecycle.go: the transitions of a service's status, and the owners that its instances subscribe by.
-- One call is one critical section, or a few with no code of the caller between them.
pub mod Stop
pub mod Start
pub mod Exit
pub mod Steady
pub mod Loose
pub mod Waits
pub mod Same
pub mod Stopped
pub mod Held
pub mod Whole
use gorch.Base.{
  ℕ, zero, suc, ◌-◌, ◌==◌, if◌then◌else◌, Bool, true, false, not, ◌&&◌, ◌||◌, List, [], ◌∷◌, Option,
  none, some, Name,
}
use gorch.Entry.{ServiceEntry, add_owner_id, remove_owner_id, take_owners}
use gorch.Messenger.{Token, register_owner, drain_owner}
use gorch.Orchestrator.{Ref, Orchestrator, Metrics, modify, notify, on_state_change, on_crash}
use gorch.Runtime.{has_err}
use gorch.Service.{Func}
use gorch.Service.Errors.{
  Error, Result, ok, err, wraps, names, user, panicked, canceled, other, join,
}
use gorch.Status.{
  ServiceStatus, ServiceStatus-discrete, starting, running, stopping, stopped, crashed, succeeded,
  is_active, is_succeeded,
}

-- errors.Is(err, context.Canceled)
abbrev pub is_canceled : Error → Bool
is_canceled canceled = true
is_canceled (join e f) = is_canceled e || is_canceled f
is_canceled _ = false

-- err != nil && !errors.Is(err, context.Canceled)
abbrev pub is_failure : Option Error → Bool
is_failure none = false
is_failure (some e) = not (is_canceled e)

unfoldable pub same_status : ServiceStatus → ServiceStatus → Bool
unfolding ServiceStatus-discrete
same_status a b = elim (ServiceStatus-discrete a b) [ yes _ ↦ true | no _ ↦ false ]

abbrev pub is_crashed : ServiceStatus → Bool
is_crashed crashed = true
is_crashed _ = false

abbrev pub is_set {ℓ} : {A : Type ℓ} → Option A → Bool
is_set none = false
is_set (some _) = true

abbrev pub or_else {ℓ} : {A : Type ℓ} → Option A → Option A → Option A
or_else none b = b
or_else (some a) b = some a

abbrev pub set_field : Orchestrator → Ref → ServiceStatus → Orchestrator
set_field o r s = modify o r (λ e. record e { status = s })

-- `if o.cfg.OnStateChange != nil && old != s`
abbrev pub tell_change : Orchestrator → Ref → ServiceStatus → ServiceStatus → Orchestrator
tell_change o r old s =
    if is_set o.cfg.on_state_change && not (same_status old s)
    then notify o (on_state_change (o.store r).name old s)
    else o

abbrev pub crash_cause : Option Error → Error
crash_cause none = other
crash_cause (some e) = e

abbrev pub count_crash : Orchestrator → Orchestrator
count_crash o = record o { metrics = record o.metrics { crashes = suc o.metrics.crashes } }

abbrev pub tell_crash : Orchestrator → Ref → Option Error → Orchestrator
tell_crash o r cause =
    if is_set o.cfg.on_crash then notify o (on_crash (o.store r).name (crash_cause cause)) else o

unfoldable pub set_status_err : Orchestrator → Ref → ServiceStatus → Option Error → Orchestrator
set_status_err o r s cause =
    let told = tell_change (set_field o r s) r (o.store r).status s in
    if is_crashed s then tell_crash (count_crash told) r cause else told

unfoldable pub set_status : Orchestrator → Ref → ServiceStatus → Orchestrator
unfolding set_status_err
set_status o r s = set_status_err o r s none

-- Whether the entry was active.
unfoldable pub begin_stop : Orchestrator → Ref → Orchestrator × Bool
unfolding set_status
begin_stop o r =
    let s = (o.store r).status in
    (if is_succeeded s then o else set_status o r stopping, is_active s)

unfoldable pub account_stop : Orchestrator → Ref → Orchestrator
account_stop o r =
    if (o.store r).stops_counted
    then o
    else record (modify o r (λ e. record e { stops_counted = true })) {
      metrics = record o.metrics { stops = suc o.metrics.stops };
    }

unfoldable pub finish_stop : Orchestrator → Ref → Bool → Orchestrator
unfolding set_status account_stop
finish_stop o r was_active =
    if is_succeeded (o.store r).status
    then o
    else if was_active
    then account_stop (set_status o r stopped) r
    else set_status o r stopped

unfoldable pub record_abandoned : Orchestrator → Orchestrator
record_abandoned o = record o {
  metrics = record o.metrics { abandoned_goroutines = suc o.metrics.abandoned_goroutines };
}

-- stopHook, afterStopHook, and the two hooks of a start.
unfoldable pub stop_hook : Orchestrator → Ref → Option Func
stop_hook o r = or_else (o.store r).cfg.on_before_stop o.cfg.on_before_stop

unfoldable pub after_stop_hook : Orchestrator → Ref → Option Func
after_stop_hook o r = or_else (o.store r).cfg.on_after_stop o.cfg.on_after_stop

abbrev pub before_start_hook : Orchestrator → Ref → Option Func
before_start_hook o r = or_else (o.store r).cfg.on_before_start o.cfg.on_before_start

abbrev pub after_start_hook : Orchestrator → Ref → Option Func
after_start_hook o r = or_else (o.store r).cfg.on_after_start o.cfg.on_after_start

-- The new owner's token. Ids begin at 1, so that none is 0.
unfoldable pub new_owner : Orchestrator → Ref → Orchestrator × Token
unfolding add_owner_id register_owner
new_owner o r =
    let id = suc o.owner_seq in
    let registered = register_owner o.messenger id in
    (
      record (modify o r (λ e. add_owner_id e id)) { owner_seq = id; messenger = registered.0 },
      registered.1,
    )

unfoldable pub release_owner : Orchestrator → Ref → ℕ → Orchestrator
unfolding remove_owner_id drain_owner
release_owner o r id =
    if id == 0
    then o
    else record (modify o r (λ e. remove_owner_id e id)) { messenger = drain_owner o.messenger id }

unfoldable pub drain_owners : Orchestrator → List ℕ → Orchestrator
unfolding drain_owner
drain_owners o [] = o
drain_owners o (id ∷ ids) = drain_owners (record o { messenger = drain_owner o.messenger id }) ids

unfoldable pub drain_service : Orchestrator → Ref → Orchestrator
unfolding take_owners drain_owners
drain_service o r =
    let taken = take_owners (o.store r) in drain_owners (modify o r (λ e. taken.0)) taken.1

-- ctx.Err() != nil for o.ctx; a nil context is not done.
abbrev pub ctx_done : Orchestrator → Bool
ctx_done o = elim o.ctx [ none ↦ false | some c ↦ has_err o.rt c ]

-- wg.Done: a panic at 0.
abbrev pub wg_done_once : Orchestrator → Orchestrator
wg_done_once o = elim o.wg [ zero ↦ record o { wg_panic = true } | suc n ↦ record o { wg = n } ]

-- `if !entry.wgDone { entry.wgDone = true; o.wg.Done() }`, in each of handleServiceDone's exits.
unfoldable pub release_wg : Orchestrator → Ref → Orchestrator
release_wg o r =
    if (o.store r).wg_done then o else wg_done_once (modify o r (λ e. record e { wg_done = true }))
