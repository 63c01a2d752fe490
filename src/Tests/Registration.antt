-- ===== src/Tests/Registration.antt =====
-- Registrations, a race of two of them, and a removal.
use gorch.Base.{
  Bool, true, List, [], ◌∷◌, none, some, Name, name_discrete, mem_dec, ◌≡◌, ◌≢◌, refl, Memᴰ,
}
use gorch.Entry.{new_entry}
use gorch.Graph.{lookup_entry, depends_on_path}
use gorch.Membership.{remove_entry_locked}
use gorch.Membership.Remove.{remove_entry_locked-keeps}
use gorch.Orchestrator.Registry.{IsRegistry}
use gorch.Register.{
  register, commit_dynamic_locked, membership_gate_locked, check_graph, check_each,
}
use gorch.Register.Acyclic.{IsAcyclic}
use gorch.Register.Parts.{Outcome}
use gorch.Register.Outcome.{register-Outcome, register-keeps_IsAcyclic}
use gorch.Register.Race.{hot_adds-cyclic}
use gorch.Service.{RegisterConfig, RegisterOption}
use gorch.Service.Errors.{returned, ok}
use gorch.Service.Options.{with_name, depends_on, apply_register_options}
use gorch.Tests.{plain, config, entry, empty, db_only, db_only-IsRegistry, db_only-IsAcyclic}

abbrev every_spec : Name → Bool
every_spec spec = true

abbrev web : List RegisterOption
unfolding with_name depends_on
web = with_name "web" ∷ depends_on ("db" ∷ []) ∷ []

register-Outcome_example :
    Outcome every_spec db_only
      (some plain)
      (apply_register_options web)
      (returned none)
      (register every_spec db_only (some plain) web (returned none))
register-Outcome_example =
    register-Outcome every_spec db_only (some plain) web (returned none) db_only-IsRegistry

register-keeps_IsAcyclic_example :
    IsRegistry (register every_spec db_only (some plain) web (returned none)).0
    × IsAcyclic (register every_spec db_only (some plain) web (returned none)).0
register-keeps_IsAcyclic_example =
    register-keeps_IsAcyclic every_spec db_only (some plain) web (returned none) db_only-IsRegistry
      db_only-IsAcyclic

abbrev left : RegisterConfig
left = config "left" ("db" ∷ []) ("right" ∷ [])

abbrev right : RegisterConfig
right = config "right" [] ("left" ∷ [])

hot_adds-cyclic_example :
    (commit_dynamic_locked db_only plain left).1 ≡ ok tt
    × (commit_dynamic_locked (commit_dynamic_locked db_only plain left).0 plain right).1 ≡ ok tt
    × ¬ (
        IsAcyclic
          (commit_dynamic_locked (commit_dynamic_locked db_only plain left).0 plain right).0)
unfolding membership_gate_locked check_graph check_each name_discrete lookup_entry depends_on_path
    db_only empty entry new_entry mem_dec
hot_adds-cyclic_example =
    hot_adds-cyclic db_only plain plain left right db_only-IsRegistry refl refl refl (λ e. cc e)
      (Memᴰ.head refl) (Memᴰ.head refl)

remove_entry_locked-keeps_example :
    IsRegistry (remove_entry_locked db_only 0)
    × IsAcyclic (remove_entry_locked db_only 0)
    × (lookup_entry (remove_entry_locked db_only 0) (db_only.store 0).name ≡ none)
    × ((n : Name)
        → n ≢ (db_only.store 0).name
        → lookup_entry (remove_entry_locked db_only 0) n ≡ lookup_entry db_only n)
unfolding db_only empty
remove_entry_locked-keeps_example =
    remove_entry_locked-keeps db_only 0 db_only-IsRegistry db_only-IsAcyclic (Memᴰ.head refl)
