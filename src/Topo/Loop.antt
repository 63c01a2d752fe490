-- ===== src/Topo/Loop.antt =====
-- The loop of topoSort: its result is levelled and complete.
use gorch.Base.{
  ℕ, zero, suc, ◌≤◌, ◌<◌, ◌≡◌, refl, sym, subst, ap, ◌∙◌, length, ltb, Bool-cases, List, [], ◌∷◌,
  ◌++◌, Memᴰ, mem-append_cases, Distinct, Distinct-append, Option, none, some, Name, sort_strings,
  ◌≢◌, ◌⊎◌, inl, inr, arith,
}
use mathlib.Core.List.Memᴰ.{cases_cons}
use mathlib.Core.List.{append_assoc, append-nil}
use gorch.Base.Names.Sort.{mem_of-sort_strings, Distinct-sort_strings}
use gorch.Entry.{ServiceEntry}
use gorch.Orchestrator.{Ref}
use gorch.Service.Errors.{Result, ok, err, wraps, dependency_cycle}
use gorch.Topo.{
  Progress, names_of, free_names, visit_level, entries_of, rounds, put_first, if_empty,
}
use gorch.Topo.Edges.{Edge, pending_zero}
use gorch.Topo.Rounds.{Counts, mem_of-free_names, Distinct-free_names, visit_level_lem}
use gorch.Topo.Levels.{flat, Levelled, level_names, IsNodeSet, IsAt}

empty_cases : (xs : List Name) → (xs ≡ []) ⊎ (xs ≢ [])
empty_cases [] = inl refl
empty_cases (x ∷ xs) = inr (λ e. cc)

if_empty-nil {ℓ} : {A : Type ℓ} (xs : List Name) (x y : A) → xs ≡ [] → if_empty xs x y ≡ x
if_empty-nil [] x y e = refl
if_empty-nil (n ∷ ns) x y e = absurd (cc)

if_empty-cons {ℓ} : {A : Type ℓ} (xs : List Name) (x y : A) → xs ≢ [] → if_empty xs x y ≡ y
if_empty-cons [] x y n = absurd (n refl)
if_empty-cons (k ∷ ks) x y n = refl

module _ (store : Ref → ServiceEntry) (es : List Edge) {names : List Name}
    {children : Name → List Name} {present : Name → Option Ref}
    (set : IsNodeSet store es names children present) where
  abbrev pub level_of : Progress → List Name
  level_of p = sort_strings (free_names p.in_degree p.visited names)

  level-mem :
      (p : Progress) (n : Name)
      → IsAt store es names p
      → Memᴰ n (level_of p)
      → Memᴰ n names × (¬ (Memᴰ n p.visited)) × ((d : Name) → Memᴰ (d, n) es → Memᴰ d p.visited)
  level-mem p n at_p m =
      let (a, b, z) = mem_of-free_names p.in_degree p.visited names n (mem_of-sort_strings n _ m) in
      (a, b, λ d e. pending_zero p.visited (d, n) e (ground (arith, at_p.counts n, z)))

  entries_of-names :
      (ns : List Name)
      → ((n : Name) → Memᴰ n ns → Memᴰ n names)
      → names_of store (entries_of present ns) ≡ ns
  unfolding entries_of
  entries_of-names [] sub = refl
  entries_of-names (n ∷ ns) sub =
      let (r, e, named) = set.named n (sub n (Memᴰ.head refl)) in
      rw (e, entries_of) (rw (named, entries_of-names ns (λ k m. sub k (Memᴰ.tail m))))

  -- A round visits the whole level.
  pub after_level :
      (p : Progress)
      → IsAt store es names p
      → IsAt store es names (visit_level children (level_of p) p)
  after_level p at_p = record {
    counts = q.1;
    visited_distinct = subst Distinct (sym q.0) (
        Distinct-append p.visited (level_of p) at_p.visited_distinct level_distinct
          (λ a m k. (level-mem p a at_p k).1 m));
    visited_inside = λ n m. elim (mem-append_cases p.visited (subst (Memᴰ n) q.0 m)) [
      | inl a ↦ at_p.visited_inside n a
      | inr b ↦ (level-mem p n at_p b).0
    ];
  }
    where
      level_distinct : Distinct (level_of p)
      level_distinct =
          Distinct-sort_strings _ (Distinct-free_names p.in_degree p.visited names set.distinct)

      q :
          ((visit_level children (level_of p) p).visited ≡ p.visited ++ level_of p)
          × Counts es (visit_level children (level_of p) p)
      q =
          visit_level_lem es children (level_of p) p set.kids_of level_distinct
            (λ n m. (level-mem p n at_p m).1) at_p.counts

  pub visited_after :
      (p : Progress)
      → IsAt store es names p
      → (visit_level children (level_of p) p).visited ≡ p.visited ++ level_of p
  visited_after p at_p =
      (visit_level_lem es children (level_of p) p set.kids_of
        (Distinct-sort_strings _ (Distinct-free_names p.in_degree p.visited names set.distinct))
        (λ n m. (level-mem p n at_p m).1) at_p.counts).0

  -- The three ways a round goes.
  pub rounds_cases :
      (fuel size : ℕ) (p : Progress)
      → ((size ≤ length p.visited)
          × (rounds (suc fuel) size names children present p ≡ some (ok [])))
        ⊎ ((length p.visited < size)
            × (level_of p ≡ [])
            × (rounds (suc fuel) size names children present p
                ≡ some (err (wraps dependency_cycle))))
        ⊎ ((length p.visited < size)
            × (level_of p ≢ [])
            × (rounds (suc fuel) size names children present p
                ≡ put_first (entries_of present (level_of p)) (
                    rounds fuel size names children present (visit_level children (level_of p) p))))
  unfolding rounds
  rounds_cases fuel size p = elim (Bool-cases (ltb (length p.visited) size)) [
    | inr t ↦ inl (ground (arith, t), rw t)
    | inl t ↦ elim (empty_cases (level_of p)) [
      | inl e ↦ inr (inl (ground (arith, t), e, rw t (if_empty-nil (level_of p) _ _ e)))
      | inr n ↦ inr (inr (ground (arith, t), n, rw t (if_empty-cons (level_of p) _ _ n)))
    ]
  ]

  -- Where the loop returns levels, they are levelled, hold no name twice and none that is visited,
  -- and leave no name out.
  pub record IsComplete (size : ℕ) (v : List Name) (levels : List (List Ref)) : Type 0 where
    pub levelled : Levelled store es v levels
    pub each_once : Distinct (v ++ level_names store es levels)
    pub all_inside : (n : Name) → Memᴰ n (v ++ level_names store es levels) → Memᴰ n names
    pub enough : size ≤ length (v ++ level_names store es levels)
    pub own : (r : Ref) → Memᴰ r (flat levels) → present (store r).name ≡ some r

  own_entries :
      (ns : List Name) (r : Ref)
      → ((n : Name) → Memᴰ n ns → Memᴰ n names)
      → Memᴰ r (entries_of present ns)
      → present (store r).name ≡ some r
  unfolding entries_of
  own_entries [] r sub m = elim m [ ]
  own_entries (n ∷ ns) r sub m =
      let (s, e, named) = set.named n (sub n (Memᴰ.head refl)) in
      elim (cases_cons (rw (e, entries_of) at m)) [
        | inl h ↦ rw h (cc (ap present named, e))
        | inr t ↦ own_entries ns r (λ k j. sub k (Memᴰ.tail j)) t
      ]

  IsComplete-nil :
      (size : ℕ) (p : Progress)
      → IsAt store es names p
      → size ≤ length p.visited
      → IsComplete size p.visited []
  IsComplete-nil size p at_p le = record {
    levelled = tt;
    each_once = rw (append-nil p.visited) at_p.visited_distinct;
    all_inside = λ n m. at_p.visited_inside n (rw (append-nil p.visited) at m);
    enough = rw (append-nil p.visited) le;
    own = λ r m. elim m [ ];
  }

  IsComplete-cons :
      (size : ℕ) (p : Progress) (levels : List (List Ref))
      → IsAt store es names p
      → IsComplete size (visit_level children (level_of p) p).visited levels
      → IsComplete size p.visited (entries_of present (level_of p) ∷ levels)
  IsComplete-cons size p levels at_p c = record {
    levelled = (
      λ n d m e. (level-mem p n at_p (subst (Memᴰ n) named m)).2 d e,
      subst (λ w. Levelled store es w levels) grown c.levelled,
    );
    each_once = subst Distinct regrouped c.each_once;
    all_inside = λ n m. c.all_inside n (subst (Memᴰ n) (sym regrouped) m);
    enough = subst (λ w. size ≤ length w) regrouped c.enough;
    own = λ r m. elim (mem-append_cases (entries_of present (level_of p)) m) [
      | inl a ↦ own_entries (level_of p) r (λ n k. (level-mem p n at_p k).0) a
      | inr b ↦ c.own r b
    ];
  }
    where
      named : names_of store (entries_of present (level_of p)) ≡ level_of p
      named = entries_of-names (level_of p) (λ n m. (level-mem p n at_p m).0)

      grown :
          (visit_level children (level_of p) p).visited
          ≡ p.visited ++ names_of store (entries_of present (level_of p))
      grown = visited_after p at_p ∙ ap (◌++◌ p.visited) (sym named)

      regrouped :
          (visit_level children (level_of p) p).visited ++ level_names store es levels
          ≡ p.visited ++ level_names store es (entries_of present (level_of p) ∷ levels)
      regrouped =
          ap (λ w. w ++ level_names store es levels) grown
          ∙ append_assoc p.visited (names_of store (entries_of present (level_of p)))
              (level_names store es levels)

  put_first-ok :
      (level : List Ref) (o : Option (Result (List (List Ref)))) (levels : List (List Ref))
      → put_first level o ≡ some (ok levels)
      → (rest : List (List Ref)) × (o ≡ some (ok rest)) × (levels ≡ level ∷ rest)
  put_first-ok level none levels h = cc
  put_first-ok level (some (ok rest)) levels h = (rest, refl, cc)
  put_first-ok level (some (err e)) levels h = cc

  pub rounds-IsComplete :
      (fuel size : ℕ) (p : Progress) (levels : List (List Ref))
      → IsAt store es names p
      → rounds fuel size names children present p ≡ some (ok levels)
      → IsComplete size p.visited levels
  unfolding rounds
  rounds-IsComplete zero size p levels at_p h = elim (Bool-cases (ltb (length p.visited) size)) [
    | inl t ↦ cc (rw t at h)
    | inr t ↦
        subst (IsComplete size p.visited) (ground (arith, t, h))
          (IsComplete-nil size p at_p (ground (arith, t)))
  ]
  rounds-IsComplete (suc fuel) size p levels at_p h = elim (rounds_cases fuel size p) [
    | inl (le, e) ↦ subst (IsComplete size p.visited) (cc (e, h)) (IsComplete-nil size p at_p le)
    | inr (inl (_, _, e)) ↦ cc (e, h)
    | inr (inr (_, _, e)) ↦
        let (rest, e', same) = put_first-ok _ _ levels (sym e ∙ h) in
        subst (IsComplete size p.visited) (sym same) (
          IsComplete-cons size p rest at_p
            (rounds-IsComplete fuel size _ rest (after_level p at_p) e'))
  ]
