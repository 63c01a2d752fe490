-- ===== src/Graph/Search.antt =====
-- The search of graph.go decides the dependency relation, up to its depth limit.
use gorch.Base.{
  ℕ, zero, suc, ◌≡◌, refl, sym, subst, true, List, [], ◌∷◌, Memᴰ, mem_dec, mem-append_cases,
  mem-append_left, mem-append_right, Option, none, some, Name, name_discrete, inl, inr, ◌↔◌, Bool,
  arith, if_neg,
}
use mathlib.Core.List.Memᴰ.{cases_cons}
use gorch.Orchestrator.{Ref, Orchestrator}
use gorch.Graph.{
  Walk, found, too_deep, absent, lookup_entry, walk_deps, depends_on_recursive, depends_on_path,
  max_dependency_depth, answer,
}
use gorch.Service.Errors.{ok}
use gorch.Graph.Paths.{edges, DependsOn, direct, through, Resolves}
use gorch.Graph.Walks.{
  if_absent-found, Finds, walk_found, Explored, Explores, Explores-refl, Explores-trans, Covers,
  Promise, walk-Explores, if_absent-absent,
}

module _ (o : Orchestrator) (target : Name) where
  nil_entry : (room : ℕ) (v : List Name) → depends_on_recursive room o target none v ≡ absent v
  unfolding depends_on_recursive
  nil_entry zero v = refl
  nil_entry (suc room) v = refl

module _ (o : Orchestrator) (target : Name) (resolves : Resolves o) where
  -- An entry whose two loops miss the target and visit its dependencies is explored.
  entry_explored :
      (r : Ref) (v v1 v' : List Name)
      → lookup_entry o (o.store r).name ≡ some r
      → Explores o target ((o.store r).name ∷ v) v1 × Covers o target (o.store r).cfg.depends_on v1
      → Explores o target v1 v' × Covers o target (o.store r).cfg.soft_depends_on v'
      → Explores o target v v' × Memᴰ (o.store r).name v'
  entry_explored r v v1 v' resolved (x, hard) (y, soft) = (
    record {
      grows = λ n m. both.grows n (Memᴰ.tail m);
      explored = λ n m. elim (both.explored n m) [
        | inr e ↦ inr e
        | inl k ↦ elim (cases_cons k) [
          | inr t ↦ inl t
          | inl e ↦ inr (subst (Explored o target v') (sym e) own)
        ]
      ];
    },
    both.grows (o.store r).name (Memᴰ.head refl),
  )
    where
      both : Explores o target ((o.store r).name ∷ v) v'
      both = Explores-trans o target x y

      all : Covers o target (edges o r) v'
      all d m = elim (mem-append_cases (o.store r).cfg.depends_on m) [
        | inl p ↦ let (ne, seen) = hard d p in (ne, λ next l. y.grows d (seen next l))
        | inr q ↦ soft d q
      ]

      own : Explored o target v' (o.store r).name
      own r' e =
          let same : r ≡ r' = ground arith in
          subst
            (λ q.
              (¬ (Memᴰ target (edges o q)))
              × ((d : Name)
                  → Memᴰ d (edges o q)
                  → (next : Ref) → lookup_entry o d ≡ some next
                  → Memᴰ d v'))
            same (λ m. (all target m).0 refl, λ d m next l. (all d m).1 next l)

  Promise-holds : (room : ℕ) → Promise (depends_on_recursive room o target) o target
  unfolding depends_on_recursive
  Promise-holds zero r v v' resolved h = cc
  Promise-holds (suc room) r v v' resolved h = elim (mem_dec name_discrete (o.store r).name v) [
    | yes m ↦
        let same : v ≡ v' = ground arith in
        (
          subst (Explores o target v) same (Explores-refl o target v),
          subst (Memᴰ (o.store r).name) same m,
        )
    | no n ↦
        let (v1, hard, soft) =
          if_absent-absent
            (walk_deps (depends_on_recursive room o target) o target (o.store r).cfg.depends_on
              ((o.store r).name ∷ v))
            (walk_deps (depends_on_recursive room o target) o target
              (o.store r).cfg.soft_depends_on)
            v' (rw (if_neg _ n) at h) in
        entry_explored r v v1 v' resolved
          (walk-Explores (depends_on_recursive room o target) o target resolves (Promise-holds room)
            (nil_entry o target room) (o.store r).cfg.depends_on ((o.store r).name ∷ v) v1 hard)
          (walk-Explores (depends_on_recursive room o target) o target resolves (Promise-holds room)
            (nil_entry o target room) (o.store r).cfg.soft_depends_on v1 v' soft)
  ]

  -- No path leaves a set of explored names that misses the target.
  no_path :
      (v : List Name) {r : Ref}
      → ((n : Name) → Memᴰ n v → Explored o target v n)
      → lookup_entry o (o.store r).name ≡ some r
      → Memᴰ (o.store r).name v
      → DependsOn o target r
      → ⊥
  no_path v {r} closed resolved m (direct e) = (closed (o.store r).name m r resolved).0 e
  no_path v {r} closed resolved m (through d {next = next} e l p) =
      let named = resolves d next l in
      no_path v closed (rw named l) (rw named ((closed (o.store r).name m r resolved).1 d e next l))
        p

module _ (o : Orchestrator) (target : Name) where
  -- A find of one of the loops is a path from the entry.
  Finds-DependsOn :
      (room : ℕ) (r : Ref) (deps : List Name)
      → ((next : Ref) (v : List Name)
          → depends_on_recursive room o target (some next) v ≡ found
          → DependsOn o target next)
      → ((d : Name) → Memᴰ d deps → Memᴰ d (edges o r))
      → Finds (depends_on_recursive room o target) o target deps
      → DependsOn o target r
  unfolding depends_on_recursive
  Finds-DependsOn room r deps ih sub (d, m, inl e) =
      direct (subst (λ n. Memᴰ n (edges o r)) e (sub d m))
  Finds-DependsOn room r deps ih sub (d, m, inr (seen, f)) = by_lookup (lookup_entry o d) refl f
    where
      by_lookup :
          (l : Option Ref)
          → lookup_entry o d ≡ l
          → depends_on_recursive room o target l seen ≡ found
          → DependsOn o target r
      by_lookup none e f' = cc (nil_entry o target room seen)
      by_lookup (some next) e f' = through d (sub d m) e (ih next seen f')

  found-DependsOn :
      (room : ℕ) (r : Ref) (v : List Name)
      → depends_on_recursive room o target (some r) v ≡ found
      → DependsOn o target r
  unfolding depends_on_recursive
  found-DependsOn zero r v h = cc
  found-DependsOn (suc room) r v h = elim (mem_dec name_discrete (o.store r).name v) [
    | yes m ↦ absurd (ground arith)
    | no n ↦
        elim (if_absent-found
          (walk_deps (depends_on_recursive room o target) o target (o.store r).cfg.depends_on
            ((o.store r).name ∷ v))
          (walk_deps (depends_on_recursive room o target) o target (o.store r).cfg.soft_depends_on)
          (rw (if_neg _ n) at h)) [
            | inl f ↦
                Finds-DependsOn room r (o.store r).cfg.depends_on (found-DependsOn room)
                  (λ d m. mem-append_left (o.store r).cfg.soft_depends_on m)
                  (walk_found (depends_on_recursive room o target) o target
                    (o.store r).cfg.depends_on ((o.store r).name ∷ v) f)
            | inr (seen, _, f) ↦
                Finds-DependsOn room r (o.store r).cfg.soft_depends_on (found-DependsOn room)
                  (λ d m. mem-append_right (o.store r).cfg.depends_on m)
                  (walk_found (depends_on_recursive room o target) o target
                    (o.store r).cfg.soft_depends_on seen f)
          ]
  ]

-- Whenever the check of a registration gives an answer, it is the right one: it says that an entry
-- depends on the target exactly when the hard and soft dependencies lead from the entry to the
-- target. The entry must be the one that lookup finds under its name, and lookup must find entries
-- by their names. (The check gives no answer where it meets its depth limit.)
pub depends_on_path-decides :
    (o : Orchestrator) (r : Ref) (target : Name) (b : Bool)
    → Resolves o
    → lookup_entry o (o.store r).name ≡ some r
    → depends_on_path o (some r) target ≡ ok b
    → (b ≡ true) ↔ DependsOn o target r
unfolding depends_on_path
depends_on_path-decides o r target b resolves resolved h =
    by_walk (depends_on_recursive (suc max_dependency_depth) o target (some r) []) refl h
  where
    by_walk :
        (w : Walk)
        → depends_on_recursive (suc max_dependency_depth) o target (some r) [] ≡ w
        → answer w ≡ ok b
        → (b ≡ true) ↔ DependsOn o target r
    by_walk found e h' =
        (λ _. found-DependsOn o target (suc max_dependency_depth) r [] e, λ _. ground arith)
    by_walk too_deep e h' = cc
    by_walk (absent v) e h' =
        let (x, m) = Promise-holds o target resolves (suc max_dependency_depth) r [] v resolved e in
        let closed : (n : Name) → Memᴰ n v → Explored o target v n =
          λ n k. elim (x.explored n k) [ inl j ↦ elim j [ ] | inr y ↦ y ] in
        (λ t. cc, λ p. absurd (no_path o target resolves v closed resolved m p))
