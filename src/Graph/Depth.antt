-- ===== src/Graph/Depth.antt =====
-- The depth limit of graph.go's search is not met in a graph of at most that many entries.
use gorch.Base.{
  ℕ, zero, suc, ◌+◌, ◌≤◌, ◌≡◌, refl, sym, ap, subst, ◌∙◌, List, [], ◌∷◌, map, length, Memᴰ, mem_dec,
  Distinct, Distinct-length-le, Bool, true, false, Option, none, some, inl, inr, Name,
  name_discrete, if_pos, if_neg, arith,
}
use mathlib.Core.List.Memᴰ.{cases_cons}
use gorch.Graph.{
  lookup_entry, Walk, found, too_deep, absent, if_absent, walk_deps, depends_on_recursive, answer,
  depends_on_path, max_dependency_depth,
}
use gorch.Orchestrator.{Ref, Orchestrator}
use gorch.Orchestrator.Registry.{IsRegistry, lookup_entry-eq}
use gorch.Service.Errors.{ok}

module _ (o : Orchestrator) (target : Name) (reg : IsRegistry o) where
  abbrev all_names : List Name
  all_names = map (λ r. (o.store r).name) o.entries

  length-names : (rs : List Ref) → length (map (λ r. (o.store r).name) rs) ≡ length rs
  length-names [] = refl
  length-names (r ∷ rs) = ap suc (length-names rs)

  name-mem :
      {r : Ref} {rs : List Ref} → Memᴰ r rs → Memᴰ (o.store r).name (map (λ q. (o.store q).name) rs)
  name-mem (Memᴰ.head e) = Memᴰ.head (ap (λ q. (o.store q).name) e)
  name-mem (Memᴰ.tail m) = Memᴰ.tail (name-mem m)

  -- The visited names are different ones, of entries.
  record IsInside (v : List Name) : Type 0 where
    distinct : Distinct v
    known : (n : Name) → Memᴰ n v → Memᴰ n all_names

  inside-length : (v : List Name) → IsInside v → length v ≤ length o.entries
  inside-length v h =
      subst (λ k. length v ≤ k) (length-names o.entries)
        (Distinct-length-le v all_names h.distinct h.known)

  -- A walk that has not met the limit, and has visited no less than before.
  IsFine : List Name → Walk → Type 0
  IsFine v found = Unit {0}
  IsFine v too_deep = ⊥
  IsFine v (absent w) = IsInside w × (length v ≤ length w)

  IsFine-later :
      (v w : List Name) (walk : Walk) → length v ≤ length w → IsFine w walk → IsFine v walk
  unfolding IsFine
  IsFine-later v w found le h = tt
  IsFine-later v w too_deep le h = h
  IsFine-later v w (absent u) le (inside, more) = (inside, omega (arith, le, more))

  IsFine-then :
      (v : List Name) (walk : Walk) (f : List Name → Walk)
      → IsFine v walk
      → ((w : List Name) → IsInside w → length v ≤ length w → IsFine w (f w))
      → IsFine v (if_absent walk f)
  unfolding IsFine
  IsFine-then v found f h k = tt
  IsFine-then v too_deep f h k = h
  IsFine-then v (absent w) f (inside, more) k = IsFine-later v w (f w) more (k w inside more)

  -- What a call promises with `room` left.
  IsFineCall : ℕ → (Option Ref → List Name → Walk) → Type 0
  IsFineCall room go =
      (q : Option Ref) (v : List Name)
      → ((r : Ref) → q ≡ some r → Memᴰ r o.entries)
      → IsInside v
      → suc (length o.entries) ≤ room + length v
      → IsFine v (go q v)

  looked_up : (d : Name) (r : Ref) → lookup_entry o d ≡ some r → Memᴰ r o.entries
  looked_up d r l = (reg.indexed d r (sym (lookup_entry-eq o reg d) ∙ l)).0

  walk-IsFine :
      (room : ℕ) (go : Option Ref → List Name → Walk)
      → IsFineCall room go
      → (deps : List Name) (v : List Name) → IsInside v
      → suc (length o.entries) ≤ room + length v
      → IsFine v (walk_deps go o target deps v)
  unfolding walk_deps IsFine IsFineCall
  walk-IsFine room go call [] v inside space = (inside, omega arith)
  walk-IsFine room go call (d ∷ ds) v inside space = elim (name_discrete d target) [
    | yes e ↦ rw (if_pos _ e) tt
    | no k ↦ rw (if_neg _ k) (
        IsFine-then v (go (lookup_entry o d) v) (walk_deps go o target ds)
          (call (lookup_entry o d) v (looked_up d) inside space)
          (λ w at_w more. walk-IsFine room go call ds w at_w (omega (arith, space, more))))
  ]

  call-IsFine : (room : ℕ) → IsFineCall room (depends_on_recursive room o target)
  unfolding IsFineCall IsFine depends_on_recursive
  call-IsFine room none v listed inside space = (inside, omega arith)
  call-IsFine zero (some r) v listed inside space = omega (arith, space, inside-length v inside)
  call-IsFine (suc room) (some r) v listed inside space =
      let e = o.store r in
      let go = depends_on_recursive room o target in
      elim (mem_dec name_discrete e.name v) [
        | yes m ↦ rw (if_pos _ m) (inside, omega arith)
        | no k ↦
            let visited = e.name ∷ v in
            let inside' : IsInside visited = record {
              distinct = (k, inside.distinct);
              known = λ n m. elim (cases_cons m) [
                | inl h ↦ subst (λ x. Memᴰ x all_names) (sym h) (name-mem (listed r refl))
                | inr t ↦ inside.known n t
              ];
            } in
            let call = call-IsFine room in
            rw (if_neg _ k) (
              IsFine-later v visited
                (if_absent (walk_deps go o target e.cfg.depends_on visited)
                  (walk_deps go o target e.cfg.soft_depends_on))
                (omega arith)
                (IsFine-then visited (walk_deps go o target e.cfg.depends_on visited)
                  (walk_deps go o target e.cfg.soft_depends_on)
                  (walk-IsFine room go call e.cfg.depends_on visited inside' (omega (arith, space)))
                  (λ w at_w more.
                    walk-IsFine room go call e.cfg.soft_depends_on w at_w
                      (omega (arith, space, more)))))
      ]

  IsFine-answer : (w : Walk) → IsFine [] w → (b : Bool) × (answer w ≡ ok b)
  unfolding IsFine
  IsFine-answer found h = (true, refl)
  IsFine-answer too_deep h = absurd h
  IsFine-answer (absent v) h = (false, refl)

-- In a registry of at most 10000 entries the check of a registration always gives an answer: the depth
-- limit is not met, however the entries depend on each other.
pub depends_on_path-answers :
    (o : Orchestrator) (r : Ref) (target : Name)
    → IsRegistry o
    → Memᴰ r o.entries
    → length o.entries ≤ max_dependency_depth
    → (b : Bool) × (depends_on_path o (some r) target ≡ ok b)
unfolding depends_on_path IsFineCall
depends_on_path-answers o r target reg m le =
    IsFine-answer o target reg
      (depends_on_recursive (suc max_dependency_depth) o target (some r) [])
      (call-IsFine o target reg (suc max_dependency_depth) (some r) []
        (λ s h. subst (λ q. Memᴰ q o.entries) (cc h) m)
        (record { distinct = tt; known = λ n k. elim k [ ] }) (omega (arith, le)))
