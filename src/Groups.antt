-- ===== src/Groups.antt =====
-- groups.go: what StartGroup, StopGroup and UnregisterGroup take under the locks, and what they then do
-- with it. What the calls of the services do is an input.
pub mod Apart
pub mod Live
use gorch.Base.{
  if◌then◌else◌, Bool, true, false, not, ◌&&◌, List, [], ◌∷◌, ◌++◌, map, mem_dec, ℕ_discrete, ℕ,
  Option, none, some, Name, name_discrete, ite,
}
use gorch.Entry.{ServiceEntry, has_live_instance, lifecycle_owned_by}
use gorch.Lifecycle.{drain_service}
use gorch.Lifecycle.Stop.{
  Run, Deadline, no_deadline, Meanwhile, stop_entry, stop_one_service, remove_all, drain_all,
}
use gorch.Lifecycle.Whole.{select, is_persistent, last_first, clear_starting}
use gorch.Membership.{
  is_busy, check_set, mark_removing, reserve_set, hard_dependents_order_locked,
  active_dependents_locked, external_dependents_locked, set_starting,
}
use gorch.Orchestrator.{Ref, Orchestrator}
use gorch.Register.{membership_gate_locked}
use gorch.Runtime.{Runtime}
use gorch.Service.{StopConfig, StopOption}
use gorch.Service.Errors.{
  Error, Result, ok, err, names, reject_if, ◌>>=◌, ◌>>◌, join?, orchestrator_not_started,
  unsupported_option, reentrant_membership, membership_busy,
}
use gorch.Service.Options.{apply_stop_options}
use gorch.Status.{is_active, is_stopping}
use gorch.Topo.{topo_sort, topo_sort_for_stop}
use gorch.Topo.Levels.{flat}

abbrev pub in_group : Name → ServiceEntry → Bool
in_group group e = ite (name_discrete e.cfg.group group) true false

abbrev pub can_start : Runtime → ServiceEntry → Bool
can_start rt e = not (is_busy e) && not (is_active e.status) && not (has_live_instance rt e)

abbrev pub mark_starting : Orchestrator → List Ref → Orchestrator
mark_starting o [] = o
mark_starting o (r ∷ rs) = mark_starting (set_starting o r true) rs

-- The members of a group, and those that StartGroup reserves. An entry stands once in the list, so
-- that a mark in the loop is a mark after it.
pub record Selection : Type 0 where
  pub members : List Ref
  pub reserved : List Ref

abbrev pub select_group : Orchestrator → Name → Selection
select_group o group = record {
  members = select (in_group group) o o.entries;
  reserved = select (λ e. in_group group e && can_start o.rt e) o o.entries;
}

abbrev pub take_start : Orchestrator → Name → Result (Unit {0}) → Orchestrator × Result Selection
take_start o group (err e) = (o, err e)
take_start o group (ok u) = let s = select_group o group in (mark_starting o s.reserved, ok s)

-- StartGroup up to the release of its locks.
unfoldable pub start_group_begin : Orchestrator → Name → Orchestrator × Result Selection
unfolding membership_gate_locked
start_group_begin o group =
    take_start o group
      (membership_gate_locked o >> reject_if (not o.started) orchestrator_not_started)

-- The entries that it then starts, in their order, out of its levels.
abbrev pub startable : List Ref → List Ref → List Ref
startable reserved [] = []
startable reserved (r ∷ rs) =
    let rest = startable reserved rs in ite (mem_dec ℕ_discrete r reserved) (r ∷ rest) rest

unfoldable pub start_group_order : Orchestrator → Selection → Option (Result (List Ref))
unfolding topo_sort
start_group_order o s = elim (topo_sort o.store s.members) [
  | none ↦ none
  | some (err e) ↦ some (err e)
  | some (ok levels) ↦ some (ok (startable s.reserved (flat levels)))
]

-- One entry to roll back, with what its calls do; a rollback waits for each.
pub record Undo : Type 0 where
  pub entry : Ref
  pub others : Meanwhile
  pub hook : Run
  pub stop : Run

-- rollbackGroupStart, over the started entries from the last to the first.
unfoldable pub rollback_group_start : Orchestrator → List Undo → Orchestrator
unfolding stop_entry drain_service
rollback_group_start o [] = o
rollback_group_start o (u ∷ us) =
    let stopped = (stop_entry o u.entry no_deadline true u.others u.hook u.stop).0 in
    rollback_group_start (drain_service stopped u.entry) us

-- `e.cfg.group != group || e.cfg.cronSpec != "" || e.cfg.runOnce`, and the reservations, negated.
abbrev pub can_stop : Name → ServiceEntry → Bool
can_stop group e = in_group group e && is_persistent e && not (is_busy e)

abbrev pub take_stop : Orchestrator → Name → Result (Unit {0}) → Orchestrator × Result (List Ref)
take_stop o group (err e) = (o, err e)
take_stop o group (ok u) =
    let taken = select (can_stop group) o o.entries in (mark_removing true o taken, ok taken)

-- StopGroup up to the release of its locks. Its timeout is not used.
unfoldable pub stop_group_begin : Orchestrator → Name → Orchestrator × Result (List Ref)
unfolding membership_gate_locked
stop_group_begin o group = take_stop o group (membership_gate_locked o)

unfoldable pub stop_one_by_one :
    Orchestrator → (Ref → Run × Run) → List Ref → Orchestrator × Option Error
unfolding stop_one_service join?
stop_one_by_one o calls [] = (o, none)
stop_one_by_one o calls (r ∷ rs) =
    let stopped = stop_one_service o r (calls r).0 (calls r).1 in
    let rest = stop_one_by_one stopped.0 calls rs in (rest.0, join? stopped.1 rest.1)

-- The rest of StopGroup.
unfoldable pub stop_group_finish :
    Orchestrator → (Ref → Run × Run) → List Ref → Option (Orchestrator × Option Error)
unfolding topo_sort_for_stop stop_one_by_one join?
stop_group_finish o calls taken = elim (topo_sort_for_stop o.store taken) [
  | none ↦ none
  | some (levels, e) ↦
      let ran = stop_one_by_one o calls (last_first levels) in
      some (mark_removing false ran.0 taken, join? e ran.1)
]

abbrev pub names_outside : List Name → List Name → List Name
names_outside member_names [] = []
names_outside member_names (n ∷ ns) =
    let rest = names_outside member_names ns in
    ite (mem_dec name_discrete n member_names) rest (n ∷ rest)

abbrev pub refusal_of : Name → List Name → Option Error
refusal_of name [] = none
refusal_of name (b ∷ bs) = some (names name (b ∷ bs))

-- The members that an active entry outside of the group depends on.
unfoldable pub group_blockers : Orchestrator → List Name → List Ref → Option Error
unfolding hard_dependents_order_locked active_dependents_locked join?
group_blockers o member_names [] = none
group_blockers o member_names (m ∷ ms) =
    let active = active_dependents_locked o m (hard_dependents_order_locked o m) in
    join? (refusal_of (o.store m).name (names_outside member_names active))
      (group_blockers o member_names ms)

abbrev pub unless : Option Error → Result (Unit {0})
unless none = ok tt
unless (some e) = err e

unfoldable pub group_set : Orchestrator → List Ref → StopConfig → Result (List Ref)
unfolding external_dependents_locked group_blockers
group_set o members cfg =
    let member_names = map (λ r. (o.store r).name) members in
    if cfg.cascade
    then ok (members ++ external_dependents_locked o members member_names)
    else if cfg.orphans
    then ok members
    else (unless (group_blockers o member_names members) >> ok members)

unfoldable pub checked_set : ℕ → Orchestrator → StopConfig → List Ref → Result (List Ref)
unfolding group_set lifecycle_owned_by
checked_set goid o cfg [] = ok []
checked_set goid o cfg (m ∷ ms) = do
  set ← group_set o (m ∷ ms) cfg
  check_set (λ e. reject_if (lifecycle_owned_by (o.store e) goid) reentrant_membership) set
  check_set (λ e. reject_if (is_busy (o.store e)) membership_busy) set
  ok set

unfoldable pub unregister_group_checks : ℕ → Orchestrator → Name → StopConfig → Result (List Ref)
unfolding membership_gate_locked checked_set
unregister_group_checks goid o group cfg = do
  reject_if (cfg.cascade && cfg.orphans) unsupported_option
  membership_gate_locked o
  checked_set goid o cfg (select (in_group group) o o.entries)

-- UnregisterGroup up to the release of its locks.
unfoldable pub unregister_group_begin :
    ℕ → Orchestrator → Name → List StopOption → Orchestrator × Result (List Ref)
unfolding unregister_group_checks apply_stop_options
unregister_group_begin goid o group opts =
    reserve_set o (unregister_group_checks goid o group (apply_stop_options opts))

-- What the code of one entry does in a stop with a deadline.
pub record GroupCalls : Type 0 where
  pub deadline : Deadline
  pub exited : Bool
  pub others : Meanwhile
  pub hook : Run
  pub stop : Run

unfoldable pub stop_unless_stopping :
    Orchestrator → (Ref → GroupCalls) → List Ref → Orchestrator × Option Error
unfolding stop_entry join?
stop_unless_stopping o calls [] = (o, none)
stop_unless_stopping o calls (r ∷ rs) =
    let c = calls r in
    let skipped = stop_unless_stopping o calls rs in
    let stopped = stop_entry o r c.deadline c.exited c.others c.hook c.stop in
    let rest = stop_unless_stopping stopped.0 calls rs in
    if is_stopping (o.store r).status then skipped else (rest.0, join? stopped.1 rest.1)

-- The rest of UnregisterGroup.
unfoldable pub unregister_group_finish :
    Orchestrator → (Ref → GroupCalls) → List Ref → Option (Orchestrator × Option Error)
unfolding topo_sort_for_stop stop_unless_stopping remove_all drain_all join?
unregister_group_finish o calls set = elim (topo_sort_for_stop o.store set) [
  | none ↦ none
  | some (levels, e) ↦
      let ran = stop_unless_stopping o calls (last_first levels) in
      let removed = drain_all (remove_all ran.0 set) set in
      some (mark_removing false removed set, join? e ran.1)
]
