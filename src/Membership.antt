-- ===== src/Membership.antt =====
-- membership.go and groups.go: which entries a start, a stop or a removal takes, decided under the
-- lock. What the calls of the services then do is not here.
pub mod Claim
pub mod Remove
pub mod Freeze
use gorch.Base.{
  ℕ, zero, suc, ◌==◌, if◌then◌else◌, Bool, true, false, not, ◌&&◌, ◌||◌, List, [], ◌∷◌, ◌++◌,
  length, mem_dec, Option, none, some, Name, name_discrete, ite,
}
use gorch.Entry.{ServiceEntry, lifecycle_owned_by, has_live_instance, reset_entry_locked}
use gorch.Graph.{lookup_entry}
use gorch.Orchestrator.{Ref, Orchestrator, write, write_name}
use gorch.Register.{membership_gate_locked}
use gorch.Service.{StopConfig, StopOption}
use gorch.Service.Errors.{
  Error, Result, ok, err, wraps, names, reject_if, ◌>>=◌, ◌>>◌, service_not_found,
  reentrant_membership, membership_busy, dependency_not_found, dependency_not_running,
  orchestrator_stopping, orchestrator_stopped, orchestrator_not_started, unsupported_option,
}
use gorch.Service.Options.{apply_stop_options}
use gorch.Status.{satisfies, is_active, is_running}

unfoldable pub check_hard_dependencies_locked : Orchestrator → List Name → Result (Unit {0})
check_hard_dependencies_locked o [] = ok tt
check_hard_dependencies_locked o (dep ∷ deps) =
    let rest = check_hard_dependencies_locked o deps in
    elim (lookup_entry o dep) [
      | none ↦ err (wraps dependency_not_found)
      | some r ↦ if satisfies (o.store r).status then rest else err (wraps dependency_not_running)
    ]

-- `entry.removing.Load() || entry.starting.Load()`
abbrev pub is_busy : ServiceEntry → Bool
is_busy e = e.removing || e.starting

-- What StartService comes to under the lock: an error, nothing to do, or an entry claimed.
pub data StartDecision : Type 0 where
  refused : Error → StartDecision
  already : StartDecision
  claimed : Ref → StartDecision

abbrev pub set_starting : Orchestrator → Ref → Bool → Orchestrator
set_starting o r b = record o { store = write o.store r (record (o.store r) { starting = b }) }

-- The guards of StartService up to the lookup.
abbrev pub start_gate : Orchestrator → Result (Unit {0})
start_gate o = do
  reject_if o.stopping orchestrator_stopping
  reject_if o.stopped orchestrator_stopped
  reject_if (not o.started) orchestrator_not_started

-- The guards on the entry, by the goroutine `goid`.
abbrev pub entry_gate : ℕ → Orchestrator → Ref → Result (Unit {0})
unfolding lifecycle_owned_by
entry_gate goid o r = do
  reject_if (lifecycle_owned_by (o.store r) goid) reentrant_membership
  reject_if (is_busy (o.store r)) membership_busy

abbrev pub find_entry : Orchestrator → Name → Result Ref
find_entry o name = elim (lookup_entry o name) [
  | none ↦ err (wraps service_not_found)
  | some r ↦ ok r
]

-- The checks of StartService that can refuse, and the entry that passes them.
unfoldable pub start_checks : ℕ → Orchestrator → Name → Result Ref
unfolding check_hard_dependencies_locked
start_checks goid o name = do
  start_gate o
  r ← find_entry o name
  entry_gate goid o r
  check_hard_dependencies_locked o (o.store r).cfg.depends_on
  ok r

-- A running entry and one with a live instance are left alone; another one is claimed.
abbrev pub claim : Orchestrator → Result Ref → Orchestrator × StartDecision
claim o (err e) = (o, refused e)
claim o (ok r) =
    if is_running (o.store r).status
    then (o, already)
    else if has_live_instance o.rt (o.store r)
    then (o, already)
    else (set_starting o r true, claimed r)

unfoldable pub start_service_begin : ℕ → Orchestrator → Name → Orchestrator × StartDecision
unfolding start_checks
start_service_begin goid o name = claim o (start_checks goid o name)

-- The walk over dependents: the names seen and the entries done, in order.
pub record Visited : Type 0 where
  pub seen : List Name
  pub order : List Ref

-- For every dependency of the entry `d` that is `name`, one visit.
abbrev pub visit_deps : (Ref → Visited → Visited) → Name → Ref → List Name → Visited → Visited
visit_deps go name d [] v = v
visit_deps go name d (dep ∷ deps) v =
    visit_deps go name d deps (ite (name_discrete dep name) (go d v) v)

abbrev pub visit_entries :
    (Ref → Visited → Visited) → Orchestrator → Name → List Ref → Visited → Visited
visit_entries go o name [] v = v
visit_entries go o name (d ∷ ds) v =
    visit_entries go o name ds (visit_deps go name d (o.store d).cfg.depends_on v)

-- `visit`, on fuel for the depth; `members` are the names that are walked and not returned.
pub visit : ℕ → Orchestrator → List Name → Ref → Visited → Visited
visit zero o members e v = v
visit (suc fuel) o members e v =
    let name = (o.store e).name in
    let go = visit fuel o members in
    let w = visit_entries go o name o.entries (record v { seen = name ∷ v.seen }) in
    ite (mem_dec name_discrete name v.seen) v
      (ite (mem_dec name_discrete name members) w (record w { order = w.order ++ e ∷ [] }))

abbrev pub nothing_seen : Visited
nothing_seen = record { seen = []; order = [] }

-- Each visit that goes deeper has seen one more name, and they are names of entries.
abbrev pub visit_fuel : Orchestrator → ℕ
visit_fuel o = suc (suc (length o.entries))

unfoldable pub hard_dependents_order_locked : Orchestrator → Ref → List Ref
unfolding visit
hard_dependents_order_locked o target = (visit (visit_fuel o) o [] target nothing_seen).order

abbrev pub visit_all : Orchestrator → List Name → List Ref → Visited → Visited
unfolding visit
visit_all o members [] v = v
visit_all o members (m ∷ ms) v = visit_all o members ms (visit (visit_fuel o) o members m v)

unfoldable pub external_dependents_locked : Orchestrator → List Ref → List Name → List Ref
external_dependents_locked o members member_names =
    (visit_all o member_names members nothing_seen).order

-- The names of the entries of a list, other than the target, that are starting or running.
unfoldable pub active_dependents_locked : Orchestrator → Ref → List Ref → List Name
active_dependents_locked o target [] = []
active_dependents_locked o target (e ∷ es) =
    let rest = active_dependents_locked o target es in
    if e == target
    then rest
    else if is_active (o.store e).status
    then (o.store e).name ∷ rest
    else rest

-- A loop of checks over the selected entries.
abbrev pub check_set : (Ref → Result (Unit {0})) → List Ref → Result (Unit {0})
check_set check [] = ok tt
check_set check (e ∷ es) = let rest = check_set check es in check e >> rest

abbrev pub blocked : Name → List Name → Result (Unit {0})
blocked name [] = ok tt
blocked name (b ∷ bs) = err (names name (b ∷ bs))

-- The entries that a stop takes: the target, or the target with its dependents.
unfoldable pub select_set : Orchestrator → Name → Ref → StopConfig → Result (List Ref)
unfolding hard_dependents_order_locked active_dependents_locked
select_set o name entry cfg =
    let ordered = hard_dependents_order_locked o entry in
    if cfg.cascade
    then ok ordered
    else if cfg.orphans
    then ok (entry ∷ [])
    else (blocked name (active_dependents_locked o entry ordered) >> ok (entry ∷ []))

-- The checks of tearDown, up to the reservation.
unfoldable pub tear_down_checks : ℕ → Orchestrator → Name → StopConfig → Result (List Ref)
unfolding select_set lifecycle_owned_by membership_gate_locked
tear_down_checks goid o name cfg = do
  reject_if (cfg.cascade && cfg.orphans) unsupported_option
  membership_gate_locked o
  entry ← find_entry o name
  set ← select_set o name entry cfg
  check_set (λ e. reject_if (lifecycle_owned_by (o.store e) goid) reentrant_membership) set
  check_set (λ e. reject_if (is_busy (o.store e)) membership_busy) set
  ok set

-- `for _, e := range set { e.removing.Store(b) }`
abbrev pub mark_removing : Bool → Orchestrator → List Ref → Orchestrator
mark_removing b o [] = o
mark_removing b o (e ∷ es) =
    mark_removing b (record o { store = write o.store e (record (o.store e) { removing = b }) }) es

abbrev pub reserve_set : Orchestrator → Result (List Ref) → Orchestrator × Result (List Ref)
reserve_set o (err e) = (o, err e)
reserve_set o (ok set) = (mark_removing true o set, ok set)

unfoldable pub tear_down_begin :
    ℕ → Orchestrator → Name → List StopOption → Orchestrator × Result (List Ref)
unfolding tear_down_checks apply_stop_options
tear_down_begin goid o name opts =
    reserve_set o (tear_down_checks goid o name (apply_stop_options opts))

abbrev pub filter_out : Ref → List Ref → List Ref
filter_out entry [] = []
filter_out entry (e ∷ es) = let rest = filter_out entry es in if e == entry then rest else e ∷ rest

-- The entry out of the list and the index, for good, with no run state left.
unfoldable pub remove_entry_locked : Orchestrator → Ref → Orchestrator
unfolding reset_entry_locked
remove_entry_locked o entry =
    let reset = reset_entry_locked o.rt (record (o.store entry) { removed = true }) in
    record o {
      rt = reset.0;
      store = write o.store entry reset.1;
      name_index = write_name o.name_index (o.store entry).name none;
      entries = filter_out entry o.entries;
    }
