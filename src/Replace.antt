-- ===== src/Replace.antt =====
-- membership.go: ReplaceService, up to the start of the new service, which is the lifecycle's or the
-- cron schedule's.
pub mod Swap
use gorch.Base.{if◌then◌else◌, Bool, true, false, not, Option, none, some, ℕ, Name, List}
use gorch.Lifecycle.{drain_service}
use gorch.Lifecycle.Stop.{Planned, stop_entry}
use gorch.Membership.{find_entry, entry_gate, check_hard_dependencies_locked, set_starting}
use gorch.Orchestrator.{Ref, Orchestrator, modify}
use gorch.Register.{membership_gate_locked}
use gorch.Service.{Service, StopOption}
use gorch.Service.Errors.{
  Error, Result, ok, err, wraps, reject_if, ◌>>=◌, ◌>>◌, Call, call_err, nil_service,
  unsupported_option, orchestrator_not_started,
}
use gorch.Service.Options.{apply_stop_options}

unfoldable pub replace_checks : ℕ → Orchestrator → Name → List StopOption → Result Ref
unfolding membership_gate_locked apply_stop_options check_hard_dependencies_locked
replace_checks goid o name opts = do
  reject_if (apply_stop_options opts).cascade unsupported_option
  membership_gate_locked o
  reject_if (not o.started) orchestrator_not_started
  r ← find_entry o name
  entry_gate goid o r
  check_hard_dependencies_locked o (o.store r).cfg.depends_on
  ok r

abbrev pub take_replace : Orchestrator → Result Ref → Orchestrator × Result Ref
take_replace o (err e) = (o, err e)
take_replace o (ok r) = (set_starting o r true, ok r)

-- ReplaceService up to the release of its locks; the service is none for nil.
unfoldable pub replace_begin :
    ℕ → Orchestrator → Name → Option Service → List StopOption → Orchestrator × Result Ref
unfolding replace_checks
replace_begin goid o name none opts = (o, err (wraps nil_service))
replace_begin goid o name (some svc) opts = take_replace o (replace_checks goid o name opts)

-- An error, with the reservation given back, or the new service installed.
pub data Replacement : Type 0 where
  failed : Orchestrator → Error → Replacement
  ready : Orchestrator → Replacement

unfoldable pub validate : Service → Call → Option Error
unfolding call_err
validate svc call = elim svc.validator [ none ↦ none | some f ↦ call_err call ]

abbrev pub install_service : Orchestrator → Ref → Service → Orchestrator
install_service o r svc = modify o r (λ e. record e {
  svc = svc;
  retry_count = 0;
  health_failures = 0;
  stable_since = 0;
  stops_counted = false;
})

abbrev pub after_stop : Orchestrator → Ref → Service → Option Error → Replacement
after_stop o r svc (some e) = failed (set_starting o r false) e
after_stop o r svc none = ready (install_service o r svc)

unfoldable pub on_validated : Orchestrator → Ref → Service → Planned → Option Error → Replacement
unfolding stop_entry drain_service
on_validated o r svc p (some e) = failed (set_starting o r false) e
on_validated o r svc p none =
    let stopped = stop_entry o r p.deadline p.exited p.others p.hook p.stop in
    after_stop (drain_service stopped.0 r) r svc stopped.1

-- The validation, the stop of the old instance and the swap.
unfoldable pub replace_swap : Orchestrator → Ref → Service → Call → Planned → Replacement
unfolding validate on_validated
replace_swap o r svc validation p = on_validated o r svc p (validate svc validation)
