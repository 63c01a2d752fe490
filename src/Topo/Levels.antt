-- ===== src/Topo/Levels.antt =====
-- The levels of topoSort, and what its loop has of the set and of its progress.
use gorch.Base.{◌≡◌, List, [], ◌∷◌, ◌++◌, Memᴰ, Distinct, Option, some, Name}
use gorch.Entry.{ServiceEntry}
use gorch.Orchestrator.{Ref}
use gorch.Topo.{Progress, names_of}
use gorch.Topo.Edges.{Edge, kids}
use gorch.Topo.Rounds.{Counts}

-- The entries of all levels, in order.
abbrev pub flat : List (List Ref) → List Ref
flat [] = []
flat (level ∷ levels) = level ++ flat levels

module _ (store : Ref → ServiceEntry) (es : List Edge) where
  -- Each entry of a level depends on names of `v` and of the levels before it only.
  abbrev pub Levelled : List Name → List (List Ref) → Type 0
  Levelled v [] = Unit
  Levelled v (level ∷ levels) =
      ((c d : Name) → Memᴰ c (names_of store level) → Memᴰ (d, c) es → Memᴰ d v)
      × Levelled (v ++ names_of store level) levels

  abbrev pub level_names : List (List Ref) → List Name
  level_names [] = []
  level_names (level ∷ levels) = names_of store level ++ level_names levels

  -- What the loop knows of the set: its names, its edges, and its entries by name.
  pub record IsNodeSet (names : List Name) (children : Name → List Name)
      (present : Name → Option Ref) : Type 0 where
    pub kids_of : (d : Name) → children d ≡ kids es d
    pub distinct : Distinct names
    pub named : (n : Name) → Memᴰ n names → (r : Ref) × (present n ≡ some r) × ((store r).name ≡ n)
    pub inside : (d c : Name) → Memᴰ (d, c) es → Memᴰ d names

  pub record IsAt (names : List Name) (p : Progress) : Type 0 where
    pub counts : Counts es p
    pub visited_distinct : Distinct p.visited
    pub visited_inside : (n : Name) → Memᴰ n p.visited → Memᴰ n names

  -- Unvisited names each of which waits for another.
  pub record IsStuck (names : List Name) : Type 0 where
    pub visited : List Name
    pub first : Name
    pub first_inside : Memᴰ first names
    pub first_unvisited : ¬ (Memᴰ first visited)
    pub waits :
        (n : Name)
        → Memᴰ n names
        → ¬ (Memᴰ n visited)
        → (d : Name) × Memᴰ (d, n) es × (¬ (Memᴰ d visited))
