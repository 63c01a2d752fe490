-- ===== src/Graph/Paths.antt =====
-- Dependency paths: the relation that graph.go's search decides.
use gorch.Base.{◌≡◌, List, ◌++◌, Memᴰ, some, Name}
use gorch.Orchestrator.{Ref, Orchestrator}
use gorch.Graph.{lookup_entry}

-- The hard and the soft dependencies of an entry.
abbrev pub edges : Orchestrator → Ref → List Name
edges o r = (o.store r).cfg.depends_on ++ (o.store r).cfg.soft_depends_on

-- An entry depends on `target` by an edge of its own, or through an entry that one names.
pub data DependsOn (o : Orchestrator) (target : Name) : Ref → Type 0 where
  direct : {r : Ref} → Memᴰ target (edges o r) → DependsOn o target r
  through :
      {r : Ref} (d : Name) {next : Ref}
      → Memᴰ d (edges o r)
      → lookup_entry o d ≡ some next
      → DependsOn o target next
      → DependsOn o target r

-- Lookup finds an entry by its name.
abbrev pub Resolves : Orchestrator → Type 0
Resolves o = (n : Name) (r : Ref) → lookup_entry o n ≡ some r → (o.store r).name ≡ n
