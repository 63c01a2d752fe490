-- ===== src/Tests/Ordering.antt =====
-- The search and the sorts on a service, its dependency and a cycle.
use gorch.Base.{
  ℕ, ◌==◌, if◌then◌else◌, Bool, true, false, List, [], ◌∷◌, ◌++◌, inl, inr, none, some, Name,
  name_discrete, mem_dec, ◌≡◌, ◌≢◌, ◌⊎◌, ◌↔◌, refl, Memᴰ, Distinct, Option, arith, sort_strings,
}
use gorch.Entry.{ServiceEntry, new_entry}
use gorch.Graph.{lookup_entry, depends_on_path}
use gorch.Graph.Paths.{DependsOn}
use gorch.Graph.Depth.{depends_on_path-answers}
use gorch.Graph.Search.{depends_on_path-decides}
use gorch.Orchestrator.{Ref}
use gorch.Orchestrator.Registry.{registry-Resolves}
use gorch.Service.Errors.{Error, ok, wraps, dependency_cycle}
use gorch.Topo.{topo_sort, topo_sort_for_stop, names_of}
use gorch.Topo.Levels.{flat}
use mathlib.Core.List.Memᴰ.{cases_cons}
use gorch.Topo.Order.{deps_of, topo_sort-ne-none, topo_sort-levels}
use gorch.Topo.Cycles.{IsRank, topo_sort-err, topo_sort_for_stop_total}
use gorch.Tests.{small, db_only, empty, small-IsRegistry, entry}

depends_on_path-decides_example : (true ≡ true) ↔ DependsOn small "db" 1
unfolding lookup_entry depends_on_path name_discrete new_entry mem_dec small entry db_only empty
depends_on_path-decides_example =
    depends_on_path-decides small 1 "db" true (registry-Resolves small small-IsRegistry) refl refl

-- Two services, the second with a dependency on the first; and two that wait for each other.
abbrev line : Ref → ServiceEntry
line r = if r == 0 then entry "a" [] [] else entry "b" ("a" ∷ []) []

abbrev ring : Ref → ServiceEntry
ring r = if r == 0 then entry "a" [] ("b" ∷ []) else entry "b" ("a" ∷ []) []

abbrev both : List Ref
both = 1 ∷ 0 ∷ []

topo_sort-ne-none_example : topo_sort ring both ≢ none
topo_sort-ne-none_example = topo_sort-ne-none ring both

abbrev is_no {ℓ} : {P : Type ℓ} → Dec P → Bool
is_no (yes _) = false
is_no (no _) = true

ne_of_no {ℓ} : {P : Type ℓ} (d : Dec P) → is_no d ≡ true → ¬ P
ne_of_no (no k) h = k
ne_of_no (yes p) h = cc h

b_ne_a : (λ (n : Name). n ≡ "a") "b" → ⊥
unfolding name_discrete
b_ne_a = ne_of_no (name_discrete "b" "a") refl

apart : Distinct {A = Name} ("b" ∷ "a" ∷ [])
apart =
    ((λ m. elim (cases_cons m) [ inl e ↦ b_ne_a e | inr t ↦ elim t [ ] ]), ((λ m. elim m [ ]), tt))

topo_sort-levels_example :
    ((r : Ref) → Memᴰ r both ↔ Memᴰ r (flat ((0 ∷ []) ∷ (1 ∷ []) ∷ [])))
    × Distinct (names_of line (flat ((0 ∷ []) ∷ (1 ∷ []) ∷ [])))
    × ((before : List (List Ref)) (level : List Ref) (after : List (List Ref)) (r s : Ref)
        → ((0 ∷ []) ∷ (1 ∷ []) ∷ []) ≡ before ++ level ∷ after
        → Memᴰ r level
        → Memᴰ s both
        → Memᴰ (line s).name (deps_of line r)
        → Memᴰ s (flat before))
unfolding topo_sort name_discrete mem_dec sort_strings entry new_entry
topo_sort-levels_example = topo_sort-levels line both ((0 ∷ []) ∷ (1 ∷ []) ∷ []) apart refl

topo_sort-err_example :
    (wraps dependency_cycle ≡ wraps dependency_cycle)
    × ((rank : Name → ℕ) → ¬ (IsRank ring both rank))
unfolding topo_sort name_discrete mem_dec sort_strings entry new_entry
topo_sort-err_example = topo_sort-err ring both (wraps dependency_cycle) apart refl

topo_sort_for_stop_total_example :
    (levels : List (List Ref)) × (e : Option Error) × (topo_sort_for_stop ring both
      ≡ some (levels, e))
    × ((r : Ref) → Memᴰ r both ↔ Memᴰ r (flat levels))
    × Distinct (names_of ring (flat levels))
    × ((e ≡ none) × (topo_sort ring both ≡ some (ok levels))
        ⊎ (e ≡ some (wraps dependency_cycle)) × (levels ≡ both ∷ []))
unfolding entry new_entry
topo_sort_for_stop_total_example = topo_sort_for_stop_total ring both apart

depends_on_path-answers_example : (b : Bool) × (depends_on_path small (some 0) "api" ≡ ok b)
unfolding small db_only empty
depends_on_path-answers_example =
    depends_on_path-answers small 0 "api" small-IsRegistry (Memᴰ.head refl) (omega arith)
