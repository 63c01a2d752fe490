-- ===== src/Graph/Walks.antt =====
-- What one walk of graph.go's search over a list of dependencies finds, or leaves explored.
use gorch.Base.{
  ◌≡◌, refl, sym, subst, List, [], ◌∷◌, Memᴰ, Option, none, some, Name, name_discrete, ◌⊎◌, inl,
  inr, ◌≢◌, arith, if_neg,
}
use mathlib.Core.List.Memᴰ.{cases_cons}
use gorch.Orchestrator.{Ref, Orchestrator}
use gorch.Graph.{Walk, found, too_deep, absent, if_absent, lookup_entry, walk_deps}
use gorch.Graph.Paths.{edges, Resolves}

abbrev pub Go : Type 0
Go = Option Ref → List Name → Walk

pub if_absent-found :
    (w : Walk) (f : List Name → Walk)
    → if_absent w f ≡ found
    → (w ≡ found) ⊎ ((seen : List Name) × (w ≡ absent seen) × (f seen ≡ found))
if_absent-found found f h = inl refl
if_absent-found too_deep f h = cc
if_absent-found (absent seen) f h = inr (seen, refl, h)

module _ (go : Go) (o : Orchestrator) (target : Name) where
  -- The step of the loop that goes on, and the one that stops with a find.
  pub walk_absent :
      (dep : Name) (deps v v' : List Name)
      → walk_deps go o target (dep ∷ deps) v ≡ absent v'
      → (dep ≢ target)
        × (seen : List Name) × (go (lookup_entry o dep) v ≡ absent seen)
        × (walk_deps go o target deps seen ≡ absent v')
  unfolding walk_deps
  walk_absent dep deps v v' h = ground arith

  -- A find is at the target, or at an entry that the loop looks up.
  abbrev pub Finds : List Name → Type 0
  Finds deps =
      (d : Name) × Memᴰ d deps
      × ((d ≡ target) ⊎ ((seen : List Name) × (go (lookup_entry o d) seen ≡ found)))

  pub Finds-cons : (dep : Name) (deps : List Name) → Finds deps → Finds (dep ∷ deps)
  Finds-cons dep deps (d, m, f) = (d, Memᴰ.tail m, f)

  pub walk_found : (deps v : List Name) → walk_deps go o target deps v ≡ found → Finds deps
  unfolding walk_deps
  walk_found [] v h = cc
  walk_found (dep ∷ deps) v h = elim (name_discrete dep target) [
    | yes e ↦ (dep, Memᴰ.head refl, inl e)
    | no n ↦
        elim (if_absent-found (go (lookup_entry o dep) v) (walk_deps go o target deps)
          (rw (if_neg _ n) at h)) [
            | inl f ↦ (dep, Memᴰ.head refl, inr (v, f))
            | inr (seen, _, f) ↦ Finds-cons dep deps (walk_found deps seen f)
          ]
  ]

module _ (o : Orchestrator) (target : Name) where
  -- A walk that finds nothing only adds names, and each name that it adds is explored.
  abbrev pub Explored : List Name → Name → Type 0
  Explored v n =
      (r : Ref)
      → lookup_entry o n ≡ some r
      → (¬ (Memᴰ target (edges o r)))
        × ((d : Name) → Memᴰ d (edges o r) → (next : Ref) → lookup_entry o d ≡ some next → Memᴰ d v)

  pub record Explores (v v' : List Name) : Type 0 where
    pub grows : (n : Name) → Memᴰ n v → Memᴰ n v'
    pub explored : (n : Name) → Memᴰ n v' → Memᴰ n v ⊎ Explored v' n

  pub Explored-mono :
      {v w : List Name} (n : Name)
      → ((m : Name) → Memᴰ m v → Memᴰ m w)
      → Explored v n
      → Explored w n
  Explored-mono n more x r e =
      let (misses, seen) = x r e in (misses, λ d m next l. more d (seen d m next l))

  pub Explores-refl : (v : List Name) → Explores v v
  Explores-refl v = record { grows = λ n m. m; explored = λ n m. inl m }

  pub Explores-trans : {u v w : List Name} → Explores u v → Explores v w → Explores u w
  Explores-trans a b = record {
    grows = λ n m. b.grows n (a.grows n m);
    explored = λ n m. elim (b.explored n m) [
      | inr x ↦ inr x
      | inl k ↦ elim (a.explored n k) [ inl j ↦ inl j | inr x ↦ inr (Explored-mono n b.grows x) ]
    ];
  }

  -- The loop has missed the target, and visited what its dependencies resolve to.
  abbrev pub Covers : List Name → List Name → Type 0
  Covers deps v =
      (d : Name)
      → Memᴰ d deps
      → (d ≢ target) × ((next : Ref) → lookup_entry o d ≡ some next → Memᴰ d v)

module _ (go : Go) (o : Orchestrator) (target : Name) where
  -- What the search promises on an entry that lookup finds.
  abbrev pub Promise : Type 0
  Promise =
      (r : Ref) (v v' : List Name)
      → lookup_entry o (o.store r).name ≡ some r
      → go (some r) v ≡ absent v'
      → Explores o target v v' × Memᴰ (o.store r).name v'

module _ (go : Go) (o : Orchestrator) (target : Name) (resolves : Resolves o)
    (promise : Promise go o target) (nil_entry : (v : List Name) → go none v ≡ absent v) where
  pub visit :
      (dep : Name) (l : Option Ref) (v v' : List Name)
      → lookup_entry o dep ≡ l
      → go l v ≡ absent v'
      → Explores o target v v' × ((next : Ref) → lookup_entry o dep ≡ some next → Memᴰ dep v')
  visit dep none v v' e h = (
    subst (Explores o target v) (ground (arith, nil_entry v)) (Explores-refl o target v),
    λ next e'. ground arith,
  )
  visit dep (some r) v v' e h =
      let named = resolves dep r e in
      let (x, m) = promise r v v' (rw named e) h in (x, λ next e'. subst (λ n. Memᴰ n v') named m)

  pub walk-Explores :
      (deps v v' : List Name)
      → walk_deps go o target deps v ≡ absent v'
      → Explores o target v v' × Covers o target deps v'
  unfolding walk_deps
  walk-Explores [] v v' h =
      (subst (Explores o target v) (ground arith) (Explores-refl o target v), λ d m. elim m [ ])
  walk-Explores (dep ∷ deps) v v' h =
      let (ne, seen, here_, rest) = walk_absent go o target dep deps v v' h in
      let (x, at_dep) = visit dep (lookup_entry o dep) v seen refl here_ in
      let (y, covers) = walk-Explores deps seen v' rest in
      (
        Explores-trans o target x y,
        λ d m. elim (cases_cons m) [
          | inl e ↦
              subst (λ n. (n ≢ target) × ((next : Ref) → lookup_entry o n ≡ some next → Memᴰ n v'))
                (sym e) (ne, λ next l. y.grows dep (at_dep next l))
          | inr t ↦ covers d t
        ],
      )

pub if_absent-absent :
    (w : Walk) (f : List Name → Walk) (v' : List Name)
    → if_absent w f ≡ absent v'
    → (seen : List Name) × (w ≡ absent seen) × (f seen ≡ absent v')
if_absent-absent found f v' h = cc
if_absent-absent too_deep f v' h = cc
if_absent-absent (absent seen) f v' h = (seen, refl, h)
