-- ===== src/Topo/Rounds.antt =====
-- The loop of topoSort: what each level holds, and that a round makes progress or finds a cycle.
use gorch.Base.{
  ◌≡◌, refl, sym, subst, ap, ◌∙◌, Bool-cases, true, List, [], ◌∷◌, ◌++◌, Memᴰ, mem_dec,
  mem-append_cases, Distinct, Name, name_discrete, if_pos, if_neg, inl, inr, ℤ, pos, is_zero,
}
use mathlib.Core.List.Memᴰ.{cases_cons}
use mathlib.Core.List.{append_assoc, append-nil}
use gorch.Topo.{Progress, free_names, drop_edges, visit_level}
use gorch.Topo.Edges.{Edge, pending, kids, drop_edges_lem, pending-visit}

-- The in-degrees count the edges from names that are still to be visited.
abbrev pub Counts : List Edge → Progress → Type 0
Counts es p = (c : Name) → p.in_degree c ≡ pos (pending es p.visited c)

pub mem_of-free_names :
    (deg : Name → ℤ) (v ns : List Name) (n : Name)
    → Memᴰ n (free_names deg v ns)
    → Memᴰ n ns × (¬ (Memᴰ n v)) × (is_zero (deg n) ≡ true)
unfolding free_names
mem_of-free_names deg v [] n m = elim m [ ]
mem_of-free_names deg v (x ∷ ns) n m = elim (mem_dec name_discrete x v) [
  | yes j ↦
      let (a, b, c) = mem_of-free_names deg v ns n (rw (if_pos _ j, free_names) at m) in
      (Memᴰ.tail a, b, c)
  | no f ↦ elim (Bool-cases (is_zero (deg x))) [
    | inl z ↦ elim (cases_cons (rw (if_neg _ f, z) at m)) [
      | inl e ↦ (Memᴰ.head e, subst (λ k. ¬ (Memᴰ k v)) (sym e) f, rw e z)
      | inr t ↦ let (a, b, c) = mem_of-free_names deg v ns n t in (Memᴰ.tail a, b, c)
    ]
    | inr z ↦
        let (a, b, c) = mem_of-free_names deg v ns n (rw (if_neg _ f, z) at m) in
        (Memᴰ.tail a, b, c)
  ]
]

pub mem-free_names :
    (deg : Name → ℤ) (v : List Name) (n : Name) {ns : List Name}
    → Memᴰ n ns
    → ¬ (Memᴰ n v)
    → is_zero (deg n) ≡ true
    → Memᴰ n (free_names deg v ns)
unfolding free_names
mem-free_names deg v n (Memᴰ.head {x = x} e) f z =
    let f' : ¬ (Memᴰ x v) = subst (λ k. ¬ (Memᴰ k v)) e f in
    let z' : is_zero (deg x) ≡ true = subst (λ k. is_zero (deg k) ≡ true) e z in
    rw (if_neg _ f', z') (Memᴰ.head e)
mem-free_names deg v n (Memᴰ.tail {x = x} m) f z = elim (mem_dec name_discrete x v) [
  | yes j ↦ rw (if_pos _ j) (mem-free_names deg v n m f z)
  | no k ↦ elim (Bool-cases (is_zero (deg x))) [
    | inl y ↦ rw (if_neg _ k, y) (Memᴰ.tail (mem-free_names deg v n m f z))
    | inr y ↦ rw (if_neg _ k, y) (mem-free_names deg v n m f z)
  ]
]

pub Distinct-free_names :
    (deg : Name → ℤ) (v ns : List Name) → Distinct ns → Distinct (free_names deg v ns)
unfolding free_names
Distinct-free_names deg v [] d = tt
Distinct-free_names deg v (x ∷ ns) d = elim (mem_dec name_discrete x v) [
  | yes j ↦ rw (if_pos _ j) (Distinct-free_names deg v ns d.1)
  | no k ↦ elim (Bool-cases (is_zero (deg x))) [
    | inl y ↦
        rw (if_neg _ k, y)
          (λ m. d.0 (mem_of-free_names deg v ns x m).0, Distinct-free_names deg v ns d.1)
    | inr y ↦ rw (if_neg _ k, y) (Distinct-free_names deg v ns d.1)
  ]
]

-- A level is visited whole, and the in-degrees keep counting.
pub visit_level_lem :
    (es : List Edge) (children : Name → List Name) (ns : List Name) (p : Progress)
    → ((d : Name) → children d ≡ kids es d)
    → Distinct ns
    → ((n : Name) → Memᴰ n ns → ¬ (Memᴰ n p.visited))
    → Counts es p
    → ((visit_level children ns p).visited ≡ p.visited ++ ns)
      × Counts es (visit_level children ns p)
unfolding visit_level
visit_level_lem es children [] p ch d fresh counts = (sym (append-nil p.visited), counts)
visit_level_lem es children (n ∷ ns) p ch d fresh counts =
    let q : Progress = record {
      visited = p.visited ++ n ∷ [];
      in_degree = drop_edges (children n) p.in_degree;
    } in
    let (e, c) =
      visit_level_lem es children ns q ch d.1
        (λ m k j. elim (mem-append_cases p.visited j) [
          | inl a ↦ fresh m (Memᴰ.tail k) a
          | inr b ↦ elim (cases_cons b) [
            | inl h ↦ d.0 (subst (λ z. Memᴰ z ns) h k)
            | inr t ↦ elim t [ ]
          ]
        ])
        (λ c. drop_edges_lem (children n) p.in_degree c (pending es (p.visited ++ n ∷ []) c) (
          counts c
          ∙ ap pos (pending-visit es p.visited n c (fresh n (Memᴰ.head refl)) ∙ rw (ch n)))) in
    (e ∙ append_assoc p.visited (n ∷ []) ns, c)
