-- ===== src/Topo/Edges.antt =====
-- The edges of a set of entries as one list of pairs, and what inDegree and children say of it.
use gorch.Base.{
  ℕ, suc, ◌+◌, ◌≡◌, refl, sym, subst, ap, ◌∙◌, List, [], ◌∷◌, ◌++◌, Memᴰ, mem_dec, mem-append_cases,
  mem-append_left, mem-append_right, Option, none, some, Option-cases, Name, name_discrete, ite,
  if_pos, if_neg, ◌≢◌, inl, inr, ℤ, pos, arith,
}
use mathlib.Core.List.{append-nil, append_assoc}
use mathlib.Core.List.Memᴰ.{cases_cons}
use gorch.Base.Int.{pos-add_one, pos-sub_one}
use gorch.Entry.{ServiceEntry}
use gorch.Orchestrator.{Ref}
use gorch.Topo.{EdgeMaps, no_edges, add_edge, add_deps, add_entries, drop_edges}

-- A dependency and the entry that declares it.
abbrev pub Edge : Type 0
Edge = Name × Name

-- How many edges into `c` come from a name that is not visited.
pub pending : List Edge → List Name → Name → ℕ
pending [] v c = 0
pending ((d, c') ∷ es) v c =
    let rest = pending es v c in
    ite (name_discrete c c') (ite (mem_dec name_discrete d v) rest (suc rest)) rest

pub kids : List Edge → Name → List Name
kids [] d = []
kids ((d', c) ∷ es) d = let rest = kids es d in ite (name_discrete d d') (c ∷ rest) rest

abbrev pub occurrences : Name → List Name → ℕ
occurrences c [] = 0
occurrences c (x ∷ xs) = let rest = occurrences c xs in ite (name_discrete c x) (suc rest) rest

pending-append :
    (es fs : List Edge) (v : List Name) (c : Name)
    → pending (es ++ fs) v c ≡ pending es v c + pending fs v c
unfolding pending
pending-append [] fs v c = omega arith
pending-append ((d, c') ∷ es) fs v c = ground (arith, pending-append es fs v c)

kids-append : (es fs : List Edge) (d : Name) → kids (es ++ fs) d ≡ kids es d ++ kids fs d
unfolding kids
kids-append [] fs d = refl
kids-append ((d', c) ∷ es) fs d = ground (arith, kids-append es fs d)

-- The maps hold the edges of the list.
pub record Represents (es : List Edge) (g : EdgeMaps) : Type 0 where
  pub degrees : (c : Name) → g.in_degree c ≡ pos (pending es [] c)
  pub kids_of : (d : Name) → g.children d ≡ kids es d

Represents-nil : Represents [] no_edges
unfolding pending kids
Represents-nil = record { degrees = λ c. refl; kids_of = λ d. refl }

Represents-add_edge :
    (es : List Edge) (dep name : Name) (g : EdgeMaps)
    → Represents es g
    → Represents (es ++ (dep, name) ∷ []) (add_edge dep name g)
unfolding pending kids mem_dec
Represents-add_edge es dep name g h = record {
  degrees = λ c. ground (
    arith,
    h.degrees c,
    h.degrees name,
    pending-append es ((dep, name) ∷ []) [] c,
    pos-add_one (pending es [] c),
  );
  kids_of = λ d. ground (
    arith,
    h.kids_of d,
    h.kids_of dep,
    kids-append es ((dep, name) ∷ []) d,
    append-nil (kids es d),
  );
}

-- The edges that the two loops over the entries add.
pub dep_edges : (Name → Option Ref) → Name → List Name → List Edge
dep_edges present name [] = []
dep_edges present name (dep ∷ deps) =
    let rest = dep_edges present name deps in
    elim (present dep) [ none ↦ rest | some _ ↦ (dep, name) ∷ rest ]

abbrev entry_edges : (Name → Option Ref) → ServiceEntry → List Edge
entry_edges present e =
    dep_edges present e.name e.cfg.depends_on ++ dep_edges present e.name e.cfg.soft_depends_on

pub all_edges : (Name → Option Ref) → (Ref → ServiceEntry) → List Ref → List Edge
all_edges present store [] = []
all_edges present store (r ∷ rs) = entry_edges present (store r) ++ all_edges present store rs

Represents-add_deps :
    (present : Name → Option Ref) (name : Name) (deps : List Name) (es : List Edge) (g : EdgeMaps)
    → Represents es g
    → Represents (es ++ dep_edges present name deps) (add_deps present name deps g)
unfolding add_deps dep_edges
Represents-add_deps present name [] es g h = rw (append-nil es) h
Represents-add_deps present name (dep ∷ deps) es g h = elim (Option-cases (present dep)) [
  | inl e ↦ rw (e, add_deps, dep_edges) (Represents-add_deps present name deps es g h)
  | inr (r, e) ↦
      rw (e, add_deps, dep_edges)
        (subst (λ l. Represents l (add_deps present name deps (add_edge dep name g)))
          (append_assoc es ((dep, name) ∷ []) (dep_edges present name deps))
          (Represents-add_deps present name deps (es ++ (dep, name) ∷ []) (add_edge dep name g)
            (Represents-add_edge es dep name g h)))
]

Represents-add_entries :
    (present : Name → Option Ref) (store : Ref → ServiceEntry) (rs : List Ref) (es : List Edge)
    (g : EdgeMaps)
    → Represents es g
    → Represents (es ++ all_edges present store rs) (add_entries present store rs g)
unfolding add_entries all_edges
Represents-add_entries present store [] es g h = rw (append-nil es) h
Represents-add_entries present store (r ∷ rs) es g h =
    let e = store r in
    let hard = dep_edges present e.name e.cfg.depends_on in
    let soft = dep_edges present e.name e.cfg.soft_depends_on in
    subst (λ l. Represents l (add_entries present store (r ∷ rs) g))
      (append_assoc (es ++ hard) soft (all_edges present store rs)
        ∙ append_assoc es hard (soft ++ all_edges present store rs)
        ∙ ap (◌++◌ es) (sym (append_assoc hard soft (all_edges present store rs))))
      (Represents-add_entries present store rs ((es ++ hard) ++ soft) _ (
        Represents-add_deps present e.name e.cfg.soft_depends_on (es ++ hard) _
          (Represents-add_deps present e.name e.cfg.depends_on es g h)))

pub drop_edges_lem :
    (cs : List Name) (f : Name → ℤ) (c : Name) (k : ℕ)
    → f c ≡ pos (k + occurrences c cs)
    → drop_edges cs f c ≡ pos k
unfolding drop_edges
drop_edges_lem [] f c k h = ground (arith, h)
drop_edges_lem (x ∷ cs) f c k h = elim (name_discrete c x) [
  | yes e ↦ drop_edges_lem cs _ c k (ground (arith, h, pos-sub_one (k + occurrences c cs)))
  | no n ↦ drop_edges_lem cs _ c k (ground (arith, h))
]

not-mem-snoc : {d p : Name} (v : List Name) → ¬ (Memᴰ d v) → d ≢ p → ¬ (Memᴰ d (v ++ p ∷ []))
not-mem-snoc v n k m = elim (mem-append_cases v m) [
  | inl a ↦ n a
  | inr b ↦ elim (cases_cons b) [ inl e ↦ k e | inr t ↦ elim t [ ] ]
]

ite-mem_dec-snoc {ℓ} :
    {A : Type ℓ} (d p : Name) (v : List Name) (x y : A)
    → ite (mem_dec name_discrete d (v ++ p ∷ [])) x y
      ≡ ite (mem_dec name_discrete d v) x (ite (name_discrete d p) x y)
ite-mem_dec-snoc d p v x y = elim (mem_dec name_discrete d v) [
  | yes m ↦ rw (if_pos _ m, if_pos _ (mem-append_left (p ∷ []) m))
  | no n ↦ rw (if_neg _ n) (elim (name_discrete d p) [
    | yes e ↦ rw (if_pos _ e, if_pos _ (mem-append_right v (Memᴰ.head e)))
    | no k ↦ rw (if_neg _ k, if_neg _ (not-mem-snoc v n k))
  ])
]

-- A visit of `p` takes the edges out of `p` from the count.
pub pending-visit :
    (es : List Edge) (v : List Name) (p c : Name)
    → ¬ (Memᴰ p v)
    → pending es v c ≡ pending es (v ++ p ∷ []) c + occurrences c (kids es p)
unfolding pending kids
pending-visit [] v p c n = refl
pending-visit ((d, c') ∷ es) v p c n =
    rw ite-mem_dec-snoc (ground (arith, pending-visit es v p c n))

-- A name with no pending edge has all its dependencies visited.
pub pending_zero :
    (v : List Name) (ed : Edge) {es : List Edge} → Memᴰ ed es → pending es v ed.1 ≡ 0 → Memᴰ ed.0 v
unfolding pending
pending_zero v ed (Memᴰ.head {x = x} {xs = es} e) z =
    subst (λ (q : Edge). pending (x ∷ es) v q.1 ≡ 0 → Memᴰ q.0 v) (sym e) at_head z
  where
    at_head : pending (x ∷ es) v x.1 ≡ 0 → Memᴰ x.0 v
    at_head z' = elim (mem_dec name_discrete x.0 v) [
      | yes m ↦ m
      | no n ↦ absurd (ground (arith, z'))
    ]
pending_zero v ed (Memᴰ.tail {x = x} {xs = es} m) z = pending_zero v ed m (ground (arith, z))

-- A pending edge comes from a name that is not visited.
pub pending_pos :
    (es : List Edge) (v : List Name) (c : Name)
    → pending es v c ≢ 0
    → (d : Name) × Memᴰ (d, c) es × (¬ (Memᴰ d v))
unfolding pending
pending_pos [] v c n = absurd (n refl)
pending_pos ((d, c') ∷ es) v c n = elim (name_discrete c c') [
  | no k ↦ let (d', m, f) = pending_pos es v c (λ z. n (rw (if_neg _ k) z)) in (d', Memᴰ.tail m, f)
  | yes e ↦ elim (mem_dec name_discrete d v) [
    | no f ↦ (d, Memᴰ.head (ap (λ q. (d, q)) e), f)
    | yes j ↦
        let (d', m, f) = pending_pos es v c (λ z. n (rw (if_pos _ e, if_pos _ j) z)) in
        (d', Memᴰ.tail m, f)
  ]
]

-- The maps of a whole set of entries.
pub built :
    (present : Name → Option Ref) (store : Ref → ServiceEntry) (rs : List Ref)
    → Represents (all_edges present store rs) (add_entries present store rs no_edges)
built present store rs = Represents-add_entries present store rs [] no_edges Represents-nil

mem-dep_edges :
    (present : Name → Option Ref) (name d : Name) (r : Ref) {deps : List Name}
    → Memᴰ d deps
    → present d ≡ some r
    → Memᴰ (d, name) (dep_edges present name deps)
unfolding dep_edges
mem-dep_edges present name d r (Memᴰ.head e) p =
    rw (← e, p, dep_edges) (Memᴰ.head (ap (λ n. (n, name)) e))
mem-dep_edges present name d r (Memᴰ.tail {x = x} m) p = elim (Option-cases (present x)) [
  | inl q ↦ rw (q, dep_edges) (mem-dep_edges present name d r m p)
  | inr (s, q) ↦ rw (q, dep_edges) (Memᴰ.tail (mem-dep_edges present name d r m p))
]

mem_of-dep_edges :
    (present : Name → Option Ref) (name : Name) (ed : Edge) (deps : List Name)
    → Memᴰ ed (dep_edges present name deps)
    → (ed.1 ≡ name) × Memᴰ ed.0 deps × (r : Ref) × (present ed.0 ≡ some r)
unfolding dep_edges
mem_of-dep_edges present name ed [] m = elim m [ ]
mem_of-dep_edges present name ed (x ∷ deps) m = elim (Option-cases (present x)) [
  | inl q ↦
      let (e, k, r, p) = mem_of-dep_edges present name ed deps (rw (q, dep_edges) at m) in
      (e, Memᴰ.tail k, r, p)
  | inr (s, q) ↦ elim (cases_cons (rw (q, dep_edges) at m)) [
    | inl h ↦ (
      ap (λ (z : Edge). z.1) h,
      Memᴰ.head (ap (λ (z : Edge). z.0) h),
      s,
      rw (ap (λ (z : Edge). z.0) h) q,
    )
    | inr t ↦ let (e, k, r, p) = mem_of-dep_edges present name ed deps t in (e, Memᴰ.tail k, r, p)
  ]
]

-- An edge of the list is a dependency of an entry of the set on a name of the set, and every such
-- dependency is an edge of the list.
pub mem-all_edges :
    (present : Name → Option Ref) (store : Ref → ServiceEntry) (d : Name) {r s : Ref}
    {rs : List Ref}
    → Memᴰ r rs
    → Memᴰ d ((store r).cfg.depends_on ++ (store r).cfg.soft_depends_on)
    → present d ≡ some s
    → Memᴰ (d, (store r).name) (all_edges present store rs)
unfolding all_edges
mem-all_edges present store d (Memᴰ.tail m) k p =
    mem-append_right _ (mem-all_edges present store d m k p)
mem-all_edges present store d {r = r} {s = s} (Memᴰ.head {xs = rs} e) k p =
    subst
      (λ q. Memᴰ (d, (store r).name) (entry_edges present (store q) ++ all_edges present store rs))
      e
      (mem-append_left (all_edges present store rs)
        (elim (mem-append_cases (store r).cfg.depends_on k) [
          | inl a ↦ mem-append_left _ (mem-dep_edges present (store r).name d s a p)
          | inr b ↦
              mem-append_right (dep_edges present (store r).name (store r).cfg.depends_on)
                (mem-dep_edges present (store r).name d s b p)
        ]))

pub mem_of-all_edges :
    (present : Name → Option Ref) (store : Ref → ServiceEntry) (rs : List Ref) (ed : Edge)
    → Memᴰ ed (all_edges present store rs)
    → (r : Ref) × Memᴰ r rs
      × ((store r).name ≡ ed.1)
      × Memᴰ ed.0 ((store r).cfg.depends_on ++ (store r).cfg.soft_depends_on)
      × (s : Ref) × (present ed.0 ≡ some s)
unfolding all_edges
mem_of-all_edges present store [] ed m = elim m [ ]
mem_of-all_edges present store (r ∷ rs) ed m =
    let e = store r in
    elim (mem-append_cases (entry_edges present e) m) [
      | inr k ↦
          let (q, l, n, d, s, p) = mem_of-all_edges present store rs ed k in
          (q, Memᴰ.tail l, n, d, s, p)
      | inl k ↦ elim (mem-append_cases (dep_edges present e.name e.cfg.depends_on) k) [
        | inl a ↦
            let (n, l, s, p) = mem_of-dep_edges present e.name ed e.cfg.depends_on a in
            (r, Memᴰ.head refl, sym n, mem-append_left e.cfg.soft_depends_on l, s, p)
        | inr b ↦
            let (n, l, s, p) = mem_of-dep_edges present e.name ed e.cfg.soft_depends_on b in
            (r, Memᴰ.head refl, sym n, mem-append_right e.cfg.depends_on l, s, p)
      ]
    ]
