-- ===== src/Introspection.antt =====
-- introspection.go, readiness.go and the queries of groups.go: what a caller can read of the state.
pub mod Agreement
use gorch.Base.{
  ◌||◌, ℕ, suc, if◌then◌else◌, Bool, true, false, ◌||◌, List, [], ◌∷◌, map, length, Option, none,
  some, Name, name_discrete, ite,
}
use gorch.Graph.{lookup_entry}
use gorch.Membership.{hard_dependents_order_locked, active_dependents_locked, find_entry, is_busy}
use gorch.Orchestrator.{Ref, Orchestrator}
use gorch.Service.Errors.{Error, Result, ok, err, Call, call_err, ◌>>=◌}
use gorch.Status.{ServiceStatus, is_running, is_succeeded}

unfoldable pub busy : Orchestrator → Name → Bool
busy o name = elim (lookup_entry o name) [ none ↦ false | some r ↦ is_busy (o.store r) ]

unfoldable pub status : Orchestrator → Name → Option ServiceStatus
status o name = elim (o.name_index name) [ none ↦ none | some r ↦ some (o.store r).status ]

-- The map of names to statuses that the entries leave, the last one under a name.
pub statuses_of : Orchestrator → List Ref → Name → Option ServiceStatus
statuses_of o [] name = none
statuses_of o (r ∷ rs) name = elim (statuses_of o rs name) [
  | some s ↦ some s
  | none ↦ ite (name_discrete (o.store r).name name) (some (o.store r).status) none
]

unfoldable pub statuses : Orchestrator → Name → Option ServiceStatus
unfolding statuses_of
statuses o = statuses_of o o.entries

unfoldable pub names : Orchestrator → List Name
names o = map (λ r. (o.store r).name) o.entries

unfoldable pub count : Orchestrator → ℕ
count o = length o.entries

abbrev pub count_in : Orchestrator → List Ref → ℕ
count_in o [] = 0
count_in o (r ∷ rs) = let n = count_in o rs in if is_running (o.store r).status then suc n else n

unfoldable pub count_running : Orchestrator → ℕ
count_running o = count_in o o.entries

abbrev pub running_in : Orchestrator → List Ref → List Name
running_in o [] = []
running_in o (r ∷ rs) =
    let ns = running_in o rs in if is_running (o.store r).status then (o.store r).name ∷ ns else ns

unfoldable pub running_names : Orchestrator → List Name
running_names o = running_in o o.entries

unfoldable pub dependents : Orchestrator → Name → Result (List Name)
unfolding hard_dependents_order_locked active_dependents_locked
dependents o name = do
  entry ← find_entry o name
  ok (active_dependents_locked o entry (hard_dependents_order_locked o entry))

unfoldable pub dependencies_of : Orchestrator → Name → Result (List Name)
dependencies_of o name = do entry ← find_entry o name; ok (o.store entry).cfg.depends_on

-- `s := de.status; s != StatusRunning && s != StatusSucceeded`, negated.
abbrev pub serves : ServiceStatus → Bool
serves s = is_running s || is_succeeded s

-- The loop over the dependencies in entryReadyLocked.
pub all_satisfied : Orchestrator → List Name → Bool
all_satisfied o [] = true
all_satisfied o (dep ∷ deps) =
    let rest = all_satisfied o deps in
    elim (lookup_entry o dep) [
      | none ↦ false
      | some r ↦ if serves (o.store r).status then rest else false
    ]

unfoldable pub entry_ready_locked : Orchestrator → Ref → Bool
unfolding all_satisfied
entry_ready_locked o r =
    if is_running (o.store r).status then all_satisfied o (o.store r).cfg.depends_on else false

abbrev pub no_error : Option Error → Bool
no_error none = true
no_error (some e) = false

-- IsReady; `call` is what the probe of a ReadinessChecker does.
unfoldable pub is_ready : Orchestrator → Name → Call → Bool
unfolding entry_ready_locked call_err
is_ready o name call = elim (o.name_index name) [
  | none ↦ false
  | some r ↦
      if entry_ready_locked o r
      then elim (o.store r).svc.readiness_checker [
        | none ↦ true
        | some _ ↦ no_error (call_err call)
      ]
      else false
]

abbrev pub in_group : Orchestrator → Name → List Ref → List Ref
in_group o group [] = []
in_group o group (r ∷ rs) =
    let rest = in_group o group rs in
    ite (name_discrete (o.store r).cfg.group group) (r ∷ rest) rest

unfoldable pub statuses_by_group : Orchestrator → Name → Name → Option ServiceStatus
unfolding statuses_of
statuses_by_group o group = statuses_of o (in_group o group o.entries)

-- m[key] of a map of strings: "" for a missing key. The first pair under a key is its value.
abbrev pub label : List (Name × Name) → Name → Name
label [] key = ""
label ((k, v) ∷ kvs) key = let rest = label kvs key in ite (name_discrete k key) v rest

abbrev pub is_nil {ℓ} : {A : Type ℓ} → List A → Bool
is_nil [] = true
is_nil (_ ∷ _) = false

abbrev pub with_label : Orchestrator → Name → Name → List Ref → List Ref
with_label o key value [] = []
with_label o key value (r ∷ rs) =
    let rest = with_label o key value rs in
    let labels = (o.store r).cfg.labels in
    if is_nil labels then rest else ite (name_discrete (label labels key) value) (r ∷ rest) rest

unfoldable pub statuses_by_label : Orchestrator → Name → Name → Name → Option ServiceStatus
unfolding statuses_of
statuses_by_label o key value = statuses_of o (with_label o key value o.entries)
