-- ===== src/Tests/Queries.antt =====
-- A start, and the queries, on a small graph.
use gorch.Base.{
  ap, ◌∙◌, arith, none, true, false, List, [], ◌∷◌, name_discrete, mem_dec, pos, ◌≡◌, ◌↔◌, refl,
  some, Memᴰ,
}
use gorch.Config.{ConfigOption, with_health_checks}
use gorch.Entry.{new_entry, lifecycle_owned_by}
use gorch.Graph.{lookup_entry}
use gorch.Introspection.{entry_ready_locked, dependents}
use gorch.Introspection.Agreement.{entry_ready_locked-checks, dependents-select_set, refusal}
use gorch.Membership.Freeze.{tear_down_begin-freezes}
use gorch.Register.{register, membership_gate_locked}
use gorch.Service.Options.{apply_stop_options, apply_register_options, depends_on}
use gorch.Orchestrator.Registry.{IsRegistry}
use gorch.Membership.{
  tear_down_begin, tear_down_checks, is_busy, mark_removing, start_service_begin, start_checks,
  refused, set_starting, check_hard_dependencies_locked, select_set, hard_dependents_order_locked,
  active_dependents_locked,
}
use gorch.Membership.Claim.{
  IsClaimable, collision, start_service_begin-claimed, start_service_begin-exclusive,
}
use gorch.Orchestrator.{Ref, Orchestrator, write}
use gorch.Service.Errors.{returned, ok}
use gorch.Status.{running, is_running}
use gorch.Tests.{plain, small, db_only, empty, entry, db_only-IsRegistry}

start_service_begin-claimed_example :
    IsClaimable 7 db_only "db" 0 × (set_starting db_only 0 true ≡ set_starting db_only 0 true)
unfolding start_service_begin start_checks lookup_entry name_discrete check_hard_dependencies_locked
    lifecycle_owned_by db_only empty entry new_entry
start_service_begin-claimed_example =
    start_service_begin-claimed 7 db_only (set_starting db_only 0 true) "db" 0 refl

start_service_begin-exclusive_example : start_service_begin 8 (set_starting db_only 0 true) "db" ≡ (
  set_starting db_only 0 true,
  refused (collision (lifecycle_owned_by ((set_starting db_only 0 true).store 0) 8)),
)
unfolding start_service_begin start_checks lookup_entry name_discrete check_hard_dependencies_locked
    lifecycle_owned_by db_only empty entry new_entry
start_service_begin-exclusive_example =
    start_service_begin-exclusive 7 8 db_only (set_starting db_only 0 true) "db" 0
      db_only-IsRegistry refl

-- The service that depends on the database is running.
abbrev api_up : Orchestrator
unfolding small
api_up = record small { store = write small.store 1 (record (small.store 1) { status = running }) }

entry_ready_locked-checks_example : (entry_ready_locked api_up 1 ≡ true) ↔ (
    (is_running (api_up.store 1).status ≡ true)
    × (check_hard_dependencies_locked api_up (api_up.store 1).cfg.depends_on ≡ ok tt))
entry_ready_locked-checks_example = entry_ready_locked-checks api_up 1

dependents-select_set_example :
    select_set api_up "db" 0 (record { cascade = false; orphans = false })
    ≡ refusal "db" 0 ("api" ∷ [])
unfolding dependents hard_dependents_order_locked active_dependents_locked lookup_entry
    name_discrete mem_dec small db_only empty entry new_entry api_up
dependents-select_set_example = dependents-select_set api_up "db" 0 ("api" ∷ []) refl refl

abbrev unchecked : List ConfigOption
unfolding with_health_checks
unchecked = with_health_checks (pos 0) [] ∷ []

abbrev frozen : Orchestrator
frozen = mark_removing true db_only (0 ∷ [])

frozen-name : (r : Ref) → (frozen.store r).name ≡ (db_only.store r).name
frozen-name r = ground arith

frozen-IsRegistry : IsRegistry frozen
unfolding db_only empty
frozen-IsRegistry = record {
  indexed = λ n r h. let (m, e) = db_only-IsRegistry.indexed n r h in (m, frozen-name r ∙ e);
  listed = λ r m. ap db_only.name_index (frozen-name r) ∙ db_only-IsRegistry.listed r m;
  same_name = λ r m. ground (arith, db_only-IsRegistry.same_name r m);
  made = db_only-IsRegistry.made;
  distinct = db_only-IsRegistry.distinct;
}

tear_down_begin-freezes_example :
    (is_busy (db_only.store 0) ≡ false)
    × ((frozen.store 0).removing ≡ true)
    × ¬ (
        (register (λ n. true) frozen (some plain) (depends_on ("db" ∷ []) ∷ []) (returned none)).1
        ≡ ok tt)
unfolding tear_down_begin tear_down_checks apply_stop_options select_set
    hard_dependents_order_locked active_dependents_locked lookup_entry name_discrete mem_dec
    lifecycle_owned_by membership_gate_locked apply_register_options depends_on db_only empty entry
    new_entry
tear_down_begin-freezes_example =
    tear_down_begin-freezes 7 db_only frozen frozen "db" "db" [] (0 ∷ []) 0 (λ n. true) (some plain)
      (depends_on ("db" ∷ []) ∷ []) (returned none) refl (Memᴰ.head refl) frozen-IsRegistry refl
      refl (Memᴰ.head refl)
