-- ===== src/Topo.antt =====
-- graph.go: topoSort and topoSortForStop.
pub mod Edges
pub mod Rounds
pub mod Levels
pub mod Loop
pub mod Ends
pub mod Order
pub mod Cycles
use gorch.Base.{
  ℕ, zero, suc, length, ltb, if◌then◌else◌, Bool, true, false, List, [], ◌∷◌, ◌++◌, map, mem_dec,
  Option, none, some, Name, name_discrete, sort_strings, ite, ℤ, pos, ◌+ℤ◌, ◌-ℤ◌, is_zero,
}
use gorch.Entry.{ServiceEntry}
use gorch.Orchestrator.{Ref}
use gorch.Service.Errors.{Error, Result, ok, err, wraps, dependency_cycle}

module _ (store : Ref → ServiceEntry) where
  abbrev pub names_of : List Ref → List Name
  names_of = map (λ r. (store r).name)

  -- byName: a later entry of the same name takes the place of an earlier one.
  pub by_name : List Ref → Name → Option Ref
  by_name [] n = none
  by_name (r ∷ rs) n = elim (by_name rs n) [
    | some later ↦ some later
    | none ↦ ite (name_discrete (store r).name n) (some r) none
  ]

  -- The keys of byName, in one of the orders in which a range may give them.
  pub keys : List Ref → List Name
  keys [] = []
  keys (r ∷ rs) =
      let rest = keys rs in
      ite (mem_dec name_discrete (store r).name (names_of rs)) rest ((store r).name ∷ rest)

-- inDegree and children. A key that is missing reads as 0 and as nil.
pub record EdgeMaps : Type 0 where
  pub in_degree : Name → ℤ
  pub children : Name → List Name

abbrev pub no_edges : EdgeMaps
no_edges = record { in_degree = λ n. pos 0; children = λ n. [] }

abbrev pub add_edge : Name → Name → EdgeMaps → EdgeMaps
add_edge dep name g = record {
  in_degree = λ n. ite (name_discrete n name) (g.in_degree name +ℤ pos 1) (g.in_degree n);
  children = λ d. ite (name_discrete d dep) (g.children dep ++ name ∷ []) (g.children d);
}

-- A loop over the dependencies of one entry: only an edge inside the set counts.
pub add_deps : (Name → Option Ref) → Name → List Name → EdgeMaps → EdgeMaps
add_deps present name [] g = g
add_deps present name (dep ∷ deps) g =
    add_deps present name deps (elim (present dep) [ none ↦ g | some _ ↦ add_edge dep name g ])

pub add_entries : (Name → Option Ref) → (Ref → ServiceEntry) → List Ref → EdgeMaps → EdgeMaps
unfolding add_deps
add_entries present store [] g = g
add_entries present store (r ∷ rs) g =
    let e = store r in
    add_entries present store rs
      (add_deps present e.name e.cfg.soft_depends_on (add_deps present e.name e.cfg.depends_on g))

-- The unvisited keys with no edge left into them.
pub free_names : (Name → ℤ) → List Name → List Name → List Name
free_names in_degree visited [] = []
free_names in_degree visited (n ∷ ns) =
    let rest = free_names in_degree visited ns in
    ite (mem_dec name_discrete n visited) rest (if is_zero (in_degree n) then n ∷ rest else rest)

-- for _, child := range children[name] { inDegree[child]-- }
pub drop_edges : List Name → (Name → ℤ) → Name → ℤ
drop_edges [] in_degree = in_degree
drop_edges (child ∷ rest) in_degree =
    drop_edges rest (λ n. ite (name_discrete n child) (in_degree child -ℤ pos 1) (in_degree n))

pub record Progress : Type 0 where
  pub visited : List Name
  pub in_degree : Name → ℤ

-- The loop over the names of a level. The names are not visited yet, so that the map of visited
-- names grows by each.
pub visit_level : (Name → List Name) → List Name → Progress → Progress
unfolding drop_edges
visit_level children [] p = p
visit_level children (n ∷ ns) p =
    visit_level children ns
      (record { visited = p.visited ++ n ∷ []; in_degree = drop_edges (children n) p.in_degree })

-- levelEntries: the names are keys of byName.
pub entries_of : (Name → Option Ref) → List Name → List Ref
entries_of present [] = []
entries_of present (n ∷ ns) =
    let rest = entries_of present ns in elim (present n) [ none ↦ rest | some r ↦ r ∷ rest ]

abbrev pub put_first :
    List Ref → Option (Result (List (List Ref))) → Option (Result (List (List Ref)))
put_first level none = none
put_first level (some (ok levels)) = some (ok (level ∷ levels))
put_first level (some (err e)) = some (err e)

-- `if len(level) == 0`
abbrev pub if_empty {ℓ} : {A : Type ℓ} → List Name → A → A → A
if_empty [] x y = x
if_empty (_ ∷ _) x y = y

-- `for len(visited) < len(entries)`, over the keys, the children and byName. `none` is for the fuel
-- that ran out.
pub rounds :
    ℕ
    → ℕ
    → List Name
    → (Name → List Name)
    → (Name → Option Ref)
    → Progress
    → Option (Result (List (List Ref)))
unfolding visit_level entries_of free_names
rounds zero size names children present p =
    if ltb (length p.visited) size then none else some (ok [])
rounds (suc fuel) size names children present p =
    let level = sort_strings (free_names p.in_degree p.visited names) in
    let rest =
      put_first (entries_of present level)
        (rounds fuel size names children present (visit_level children level p)) in
    if ltb (length p.visited) size
    then if_empty level (some (err (wraps dependency_cycle))) rest
    else some (ok [])

-- A round visits a name at least, so there are no more rounds than entries.
unfoldable pub topo_sort : (Ref → ServiceEntry) → List Ref → Option (Result (List (List Ref)))
unfolding rounds add_entries keys by_name
topo_sort store entries =
    let present = by_name store entries in
    let g = add_entries present store entries no_edges in
    rounds (length entries) (length entries) (keys store entries) g.children present
      (record { visited = []; in_degree = g.in_degree })

-- The levels to stop, last first, with the error that kept the order from being honoured.
unfoldable pub topo_sort_for_stop :
    (Ref → ServiceEntry) → List Ref → Option (List (List Ref) × Option Error)
topo_sort_for_stop store entries = elim (topo_sort store entries) [
  | none ↦ none
  | some (err e) ↦ some (entries ∷ [], some e)
  | some (ok levels) ↦ some (levels, none)
]
