-- ===== src/Health.antt =====
-- health.go: the probes of services and the restart of one that fails too often. What a probe or a hook
-- does is an input; the ticker of the loop is left out.
pub mod Threshold
use gorch.Base.{
  ℕ, suc, ◌==◌, if◌then◌else◌, Bool, true, false, not, ◌&&◌, List, [], ◌∷◌, Option, none, some,
  Name, name_discrete, ite, pos, ltb_ℤ,
}
use gorch.Lifecycle.{is_set}
use gorch.Orchestrator.{Ref, Orchestrator, modify, notify, after_health_check}
use gorch.Runtime.{cancel?}
use gorch.Service.Errors.{Error, Call, call_err}
use gorch.Status.{is_running}

unfoldable pub health_candidate : Orchestrator → Ref → Bool
health_candidate o r = not (o.store r).removing && is_running (o.store r).status

abbrev pub has_checker : Orchestrator → Ref → Bool
has_checker o r = is_set (o.store r).svc.health_checker

-- Whether the service has a checker, and the error of its probe.
unfoldable pub probe_health : Orchestrator → Ref → Call → Bool × Option Error
unfolding call_err
probe_health o r probe = if has_checker o r then (true, call_err probe) else (false, none)

-- The index leads to this entry still.
unfoldable pub health_still_current : Orchestrator → Ref → Bool
health_still_current o r =
    (elim (o.name_index (o.store r).name) [ none ↦ false | some s ↦ s == r ])
    && not (o.store r).removing

-- Health over a snapshot: the entries that it reports, in order, with their errors. No other operation
-- runs between.
unfoldable pub health_of : Orchestrator → (Ref → Call) → List Ref → List (Name × Option Error)
unfolding health_candidate probe_health health_still_current
health_of o probes [] = []
health_of o probes (r ∷ rs) =
    let rest = health_of o probes rs in
    if health_candidate o r && health_still_current o r
    then ((o.store r).name, (probe_health o r (probes r)).1) ∷ rest
    else rest

unfoldable pub health : Orchestrator → (Ref → Call) → List (Name × Option Error)
unfolding health_of
health o probes = health_of o probes o.entries

abbrev pub set_health_failures : Orchestrator → Ref → ℕ → Orchestrator
set_health_failures o r n = modify o r (λ e. record e { health_failures = n })

-- `failures >= o.cfg.HealthThreshold && e.cfg.factory != nil`
abbrev pub is_over : Orchestrator → Ref → ℕ → Bool
is_over o r failures =
    not (ltb_ℤ (pos failures) o.cfg.health_threshold) && is_set (o.store r).cfg.factory

-- One more failure: the instance is cancelled at the threshold, so that self-heal restarts it.
unfoldable pub count_failure : Orchestrator → Ref → Orchestrator
count_failure o r =
    let failures = suc (o.store r).health_failures in
    let counted = record o {
      metrics = record o.metrics { health_fails = suc o.metrics.health_fails };
    } in
    if is_over o r failures
    then record (set_health_failures counted r 0) { rt = cancel? o.rt (o.store r).cancel }
    else set_health_failures counted r failures

abbrev pub tell_after_check : Orchestrator → Ref → Option Error → Orchestrator
tell_after_check o r e =
    if is_set o.cfg.after_health_check then notify o (after_health_check (o.store r).name e) else o

unfoldable pub record_result : Orchestrator → Ref → Option Error → Orchestrator
unfolding count_failure
record_result o r none = set_health_failures o r 0
record_result o r (some e) = count_failure o r

-- What follows a probe, in the state that it comes back to.
unfoldable pub after_probe : Orchestrator → Ref → Option Error → Orchestrator
unfolding health_still_current record_result
after_probe o r e =
    let told = tell_after_check o r e in
    if health_still_current told r then record_result told r e else told

-- One round over a snapshot, with no other operation between.
unfoldable pub run_health_checks : Orchestrator → (Ref → Call) → List Ref → Orchestrator
unfolding health_candidate probe_health after_probe
run_health_checks o probes [] = o
run_health_checks o probes (r ∷ rs) =
    let probed = after_probe o r (probe_health o r (probes r)).1 in
    let next = if health_candidate o r && has_checker o r then probed else o in
    run_health_checks next probes rs
