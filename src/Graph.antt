-- ===== src/Graph.antt =====
-- graph.go: name lookup and the search for a dependency path. Ordering is in Topo.antt.
pub mod Paths
pub mod Walks
pub mod Search
pub mod Depth
use gorch.Base.{
  ℕ, zero, suc, Bool, true, false, List, [], ◌∷◌, mem_dec, Option, none, some, Name, name_discrete,
  ite,
}
use gorch.Orchestrator.{Ref, Orchestrator, find_named}
use gorch.Service.Errors.{Result, ok, err, wraps, dependency_depth_exceeded}

unfoldable pub lookup_entry : Orchestrator → Name → Option Ref
lookup_entry o name = elim (o.name_index name) [
  | some r ↦ some r
  | none ↦ find_named o.store name o.entries
]

abbrev pub max_dependency_depth : ℕ
max_dependency_depth = 10000

-- What a walk comes back with: the target was found, the depth limit was met, or neither, with the
-- names visited by then.
pub data Walk : Type 0 where
  found too_deep : Walk
  absent : (visited : List Name) → Walk

-- Both loops stop at a find and at an error.
abbrev pub if_absent : Walk → (List Name → Walk) → Walk
if_absent found go_on = found
if_absent too_deep go_on = too_deep
if_absent (absent visited) go_on = go_on visited

-- One of the two loops over the dependencies of an entry. `go` is the call on an entry, one edge
-- deeper.
pub walk_deps : (Option Ref → List Name → Walk) → Orchestrator → Name → List Name → List Name → Walk
walk_deps go o target [] visited = absent visited
walk_deps go o target (dep ∷ deps) visited =
    ite (name_discrete dep target) found
      (if_absent (go (lookup_entry o dep) visited) (walk_deps go o target deps))

-- dependsOnRecursive. `room` is maxDependencyDepth + 1 - depth: it is zero when
-- `depth > maxDependencyDepth`, so the recursion is as deep as the program's and no deeper.
pub depends_on_recursive : ℕ → Orchestrator → Name → Option Ref → List Name → Walk
unfolding walk_deps
depends_on_recursive room o target none visited = absent visited
depends_on_recursive zero o target (some r) visited = too_deep
depends_on_recursive (suc room) o target (some r) visited =
    let e = o.store r in
    let go = depends_on_recursive room o target in
    ite (mem_dec name_discrete e.name visited) (absent visited) (
      if_absent (walk_deps go o target e.cfg.depends_on (e.name ∷ visited))
        (walk_deps go o target e.cfg.soft_depends_on))

abbrev pub answer : Walk → Result Bool
answer found = ok true
answer too_deep = err (wraps dependency_depth_exceeded)
answer (absent visited) = ok false

-- A top-level check: a fresh visited map, and depth 0.
unfoldable pub depends_on_path : Orchestrator → Option Ref → Name → Result Bool
unfolding depends_on_recursive
depends_on_path o r target = answer (depends_on_recursive (suc max_dependency_depth) o target r [])
