-- ===== src/Topo/Ends.antt =====
-- The loop of topoSort ends, and it fails on a cycle only.
use gorch.Base.{
  ℕ, zero, suc, ◌+◌, ◌≤◌, ◌<◌, ◌≡◌, refl, sym, subst, ap, ◌∙◌, length, length-append, ltb,
  Bool-cases, List, [], ◌∷◌, Memᴰ, mem_dec, Distinct-length-le, Option, none, some, Name,
  name_discrete, ◌≢◌, ◌⊎◌, inl, inr, arith,
}
use mathlib.Core.List.Memᴰ.{cases_cons}
use gorch.Base.Names.Sort.{mem-sort_strings}
use gorch.Entry.{ServiceEntry}
use gorch.Orchestrator.{Ref}
use gorch.Service.Errors.{Error, Result, ok, err, wraps, dependency_cycle}
use gorch.Topo.{Progress, rounds, put_first}
use gorch.Topo.Edges.{Edge, pending_pos}
use gorch.Topo.Rounds.{mem-free_names}
use gorch.Topo.Levels.{IsNodeSet, IsAt, IsStuck}
use gorch.Topo.Loop.{level_of, after_level, visited_after, rounds_cases}

-- A list misses a name of another, or holds them all.
missing :
    (ns v : List Name)
    → ((n : Name) × Memᴰ n ns × (¬ (Memᴰ n v))) ⊎ ((n : Name) → Memᴰ n ns → Memᴰ n v)
missing [] v = inr (λ n m. elim m [ ])
missing (x ∷ ns) v = elim (mem_dec name_discrete x v) [
  | no f ↦ inl (x, Memᴰ.head refl, f)
  | yes j ↦ elim (missing ns v) [
    | inl (n, m, f) ↦ inl (n, Memᴰ.tail m, f)
    | inr all ↦
        inr
          (λ n m. elim (cases_cons m) [ inl e ↦ subst (λ k. Memᴰ k v) (sym e) j | inr t ↦ all n t ])
  ]
]

module _ (store : Ref → ServiceEntry) (es : List Edge) {names : List Name}
    {children : Name → List Name} {present : Name → Option Ref}
    (set : IsNodeSet store es names children present) where
  length-pos : (xs : List Name) → xs ≢ [] → 0 < length xs
  length-pos [] n = absurd (n refl)
  length-pos (x ∷ xs) n = omega arith

  put_first-ne-none :
      (level : List Ref) (o : Option (Result (List (List Ref))))
      → o ≢ none
      → put_first level o ≢ none
  put_first-ne-none level none n h = n refl
  put_first-ne-none level (some (ok levels)) n h = cc
  put_first-ne-none level (some (err e)) n h = cc

  -- As much fuel as there are entries left to visit is enough.
  pub rounds-ne-none :
      (fuel size : ℕ) (p : Progress)
      → IsAt store es names p
      → size ≤ length p.visited + fuel
      → rounds fuel size names children present p ≢ none
  unfolding rounds
  rounds-ne-none zero size p at_p le h = elim (Bool-cases (ltb (length p.visited) size)) [
    | inl t ↦ absurd (ground (arith, t, le))
    | inr t ↦ cc (rw t at h)
  ]
  rounds-ne-none (suc fuel) size p at_p le h = elim (rounds_cases store es set fuel size p) [
    | inl (_, e) ↦ cc (e, h)
    | inr (inl (_, _, e)) ↦ cc (e, h)
    | inr (inr (_, n, e)) ↦
        put_first-ne-none _ _
          (rounds-ne-none fuel size _ (after_level store es set p at_p) (
            omega (
              arith,
              ap length (visited_after store es set p at_p),
              length-append p.visited (level_of store es set p),
              length-pos (level_of store es set p) n,
              le,
            )))
          (sym e ∙ h)
  ]

  put_first-err :
      (level : List Ref) (o : Option (Result (List (List Ref)))) (x : Error)
      → put_first level o ≡ some (err x)
      → o ≡ some (err x)
  put_first-err level none x h = cc
  put_first-err level (some (ok rest)) x h = cc
  put_first-err level (some (err e)) x h = h

  -- A round that frees no name while one is left.
  IsStuck-at :
      (p : Progress)
      → IsAt store es names p
      → length p.visited < length names
      → level_of store es set p ≡ []
      → IsStuck store es names
  IsStuck-at p at_p lt e = elim (missing names p.visited) [
    | inr all ↦ absurd (omega (arith, Distinct-length-le names p.visited set.distinct all))
    | inl (n, m, f) ↦ record {
      visited = p.visited;
      first = n;
      first_inside = m;
      first_unvisited = f;
      waits = λ k j g. pending_pos es p.visited k λ z. not-mem-nil_of k (
          subst (Memᴰ k) e (
            mem-sort_strings k _
              (mem-free_names p.in_degree p.visited k j g (ground (arith, at_p.counts k, z)))));
    }
  ]
    where
      not-mem-nil_of : (k : Name) → Memᴰ k [] → ⊥
      not-mem-nil_of k m = elim m [ ]

  pub rounds-IsStuck :
      (fuel : ℕ) (p : Progress) (x : Error)
      → IsAt store es names p
      → rounds fuel (length names) names children present p ≡ some (err x)
      → (x ≡ wraps dependency_cycle) × IsStuck store es names
  unfolding rounds
  rounds-IsStuck zero p x at_p h = elim (Bool-cases (ltb (length p.visited) (length names))) [
    | inl t ↦ cc (rw t at h)
    | inr t ↦ cc (rw t at h)
  ]
  rounds-IsStuck (suc fuel) p x at_p h = elim (rounds_cases store es set fuel (length names) p) [
    | inl (_, e) ↦ cc (e, h)
    | inr (inl (lt, none_free, e)) ↦ (cc (e, h), IsStuck-at p at_p lt none_free)
    | inr (inr (_, _, e)) ↦
        rounds-IsStuck fuel _ x (after_level store es set p at_p) (put_first-err _ _ x (sym e ∙ h))
  ]
