-- ===== src/Introspection/Agreement.antt =====
-- The queries agree with each other and with the operations they speak of.
use gorch.Base.{
  true, false, List, [], ◌∷◌, some, Name, ◌≡◌, refl, ap, ◌∙◌, ◌↔◌, Bool-cases, Option-cases, inl,
  inr,
}
use gorch.Graph.{lookup_entry}
use gorch.Membership.{
  hard_dependents_order_locked, active_dependents_locked, find_entry,
  check_hard_dependencies_locked, select_set, blocked,
}
use gorch.Orchestrator.{Ref, Orchestrator}
use gorch.Service.Errors.{Result, ok, err, names, ◌>>◌}
use gorch.Status.{
  ServiceStatus, registered, running, stopping, stopped, crashed, succeeded, is_running, satisfies,
}
use gorch.Introspection.{serves, entry_ready_locked, all_satisfied, dependents}

serves-satisfies : (s : ServiceStatus) → serves s ≡ satisfies s
serves-satisfies registered = refl
serves-satisfies ServiceStatus.starting = refl
serves-satisfies running = refl
serves-satisfies stopping = refl
serves-satisfies stopped = refl
serves-satisfies crashed = refl
serves-satisfies succeeded = refl

satisfied_iff :
    (o : Orchestrator) (deps : List Name)
    → (all_satisfied o deps ≡ true) ↔ (check_hard_dependencies_locked o deps ≡ ok tt)
unfolding all_satisfied check_hard_dependencies_locked
satisfied_iff o [] = (λ _. refl, λ _. refl)
satisfied_iff o (d ∷ ds) = elim (Option-cases (lookup_entry o d)) [
  | inl l ↦ rw (l, all_satisfied, check_hard_dependencies_locked) (λ h. cc h, λ h. cc h)
  | inr (r, l) ↦ elim (Bool-cases (satisfies (o.store r).status)) [
    | inl s ↦
        rw
          (
            l,
            s,
            all_satisfied,
            serves-satisfies (o.store r).status ∙ s,
            check_hard_dependencies_locked,
          )
          (satisfied_iff o ds)
    | inr s ↦
        rw
          (
            l,
            s,
            all_satisfied,
            serves-satisfies (o.store r).status ∙ s,
            check_hard_dependencies_locked,
          )
          (λ h. cc h, λ h. cc h)
  ]
]

-- An entry counts as ready (before its own probe) exactly when it is running and StartService would
-- find its hard dependencies in order.
pub entry_ready_locked-checks :
    (o : Orchestrator) (r : Ref)
    → (entry_ready_locked o r ≡ true) ↔ (
        (is_running (o.store r).status ≡ true)
        × (check_hard_dependencies_locked o (o.store r).cfg.depends_on ≡ ok tt))
unfolding entry_ready_locked
entry_ready_locked-checks o r = elim (Bool-cases (is_running (o.store r).status)) [
  | inl e ↦
      let (to, from) = satisfied_iff o (o.store r).cfg.depends_on in
      rw e (λ h. (refl, to h), λ h. from h.1)
  | inr e ↦ rw e (λ h. cc h, λ h. cc h.0)
]

-- What a plain stop does with a list of dependents.
abbrev pub refusal : Name → Ref → List Name → Result (List Ref)
refusal name entry [] = ok (entry ∷ [])
refusal name entry (b ∷ bs) = err (names name (b ∷ bs))

blocked_lem :
    (name : Name) (entry : Ref) (bs : List Name)
    → (blocked name bs >> ok (entry ∷ [])) ≡ refusal name entry bs
blocked_lem name entry [] = refl
blocked_lem name entry (b ∷ bs) = refl

-- Dependents gives exactly the names for which a plain stop of the service is refused: if it gives a
-- name, the selection of the stop fails with those names, in that order; if it gives none, the stop
-- takes the service alone.
pub dependents-select_set :
    (o : Orchestrator) (name : Name) (r : Ref) (deps : List Name)
    → lookup_entry o name ≡ some r
    → dependents o name ≡ ok deps
    → select_set o name r (record { cascade = false; orphans = false }) ≡ refusal name r deps
unfolding dependents select_set
dependents-select_set o name r deps l h =
    let same : active_dependents_locked o r (hard_dependents_order_locked o r) ≡ deps =
      cc (rw (l, dependents, find_entry) at h) in
    blocked_lem name r (active_dependents_locked o r (hard_dependents_order_locked o r))
    ∙ ap (refusal name r) same
