-- ===== src/Base/Names/Sort.antt =====
-- The sort of names keeps its elements, and adds no repeat.
use Prim.Native.Nat.{Ordering}
use Prim.Native.String.{compare}
use mathlib.Core.Path.{◌≡◌, refl, sym, subst}
use mathlib.Core.Logic.{◌⊎◌, inl, inr}
use mathlib.Core.List.{List, [], ◌∷◌, Memᴰ}
use mathlib.Core.List.Memᴰ.{cases_cons}
use gorch.Base.Lists.{Distinct}
use gorch.Base.Names.{Name, insert_sorted, sort_strings}

-- The two results of a comparison that matter.
insert_cases :
    (a b : Name) (bs : List Name)
    → (insert_sorted a (b ∷ bs) ≡ b ∷ insert_sorted a bs) ⊎ (insert_sorted a (b ∷ bs) ≡ a ∷ b ∷ bs)
unfolding insert_sorted
insert_cases a b bs =
    elim (compare a b)
      as (λ o.
        (elim o [ Ordering.gt ↦ b ∷ insert_sorted a bs | _ ↦ a ∷ b ∷ bs ] ≡ b ∷ insert_sorted a bs)
        ⊎ (elim o [ Ordering.gt ↦ b ∷ insert_sorted a bs | _ ↦ a ∷ b ∷ bs ] ≡ a ∷ b ∷ bs)) [
          | Ordering.gt ↦ inl refl
          | Ordering.lt ↦ inr refl
          | Ordering.eq ↦ inr refl
        ]

mem-insert : (a x : Name) (bs : List Name) → Memᴰ x (a ∷ bs) → Memᴰ x (insert_sorted a bs)
unfolding insert_sorted
mem-insert a x [] m = m
mem-insert a x (b ∷ bs) m = elim (insert_cases a b bs) [
  | inr e ↦ subst (Memᴰ x) (sym e) m
  | inl e ↦ subst (Memᴰ x) (sym e) (elim (cases_cons m) [
    | inl h ↦ Memᴰ.tail (mem-insert a x bs (Memᴰ.head h))
    | inr t ↦ elim (cases_cons t) [
      | inl h ↦ Memᴰ.head h
      | inr t' ↦ Memᴰ.tail (mem-insert a x bs (Memᴰ.tail t'))
    ]
  ])
]

mem_of-insert : (a x : Name) (bs : List Name) → Memᴰ x (insert_sorted a bs) → Memᴰ x (a ∷ bs)
unfolding insert_sorted
mem_of-insert a x [] m = m
mem_of-insert a x (b ∷ bs) m = elim (insert_cases a b bs) [
  | inr e ↦ subst (Memᴰ x) e m
  | inl e ↦ elim (cases_cons (subst (Memᴰ x) e m)) [
    | inl h ↦ Memᴰ.tail (Memᴰ.head h)
    | inr t ↦ elim (cases_cons (mem_of-insert a x bs t)) [
      | inl h ↦ Memᴰ.head h
      | inr t' ↦ Memᴰ.tail (Memᴰ.tail t')
    ]
  ]
]

Distinct-insert :
    (a : Name) (bs : List Name) → ¬ (Memᴰ a bs) → Distinct bs → Distinct (insert_sorted a bs)
unfolding insert_sorted
Distinct-insert a [] n d = (n, tt)
Distinct-insert a (b ∷ bs) n d = elim (insert_cases a b bs) [
  | inr e ↦ subst Distinct (sym e) (n, d)
  | inl e ↦ subst Distinct (sym e) (
    λ m. elim (cases_cons (mem_of-insert a b bs m)) [
      | inl h ↦ n (Memᴰ.head (sym h))
      | inr t ↦ d.0 t
    ],
    Distinct-insert a bs (λ m. n (Memᴰ.tail m)) d.1,
  )
]

pub mem-sort_strings : (x : Name) (xs : List Name) → Memᴰ x xs → Memᴰ x (sort_strings xs)
unfolding sort_strings
mem-sort_strings x [] m = m
mem-sort_strings x (a ∷ xs) m =
    mem-insert a x (sort_strings xs)
      (elim (cases_cons m) [ inl h ↦ Memᴰ.head h | inr t ↦ Memᴰ.tail (mem-sort_strings x xs t) ])

pub mem_of-sort_strings : (x : Name) (xs : List Name) → Memᴰ x (sort_strings xs) → Memᴰ x xs
unfolding sort_strings
mem_of-sort_strings x [] m = m
mem_of-sort_strings x (a ∷ xs) m = elim (cases_cons (mem_of-insert a x (sort_strings xs) m)) [
  | inl h ↦ Memᴰ.head h
  | inr t ↦ Memᴰ.tail (mem_of-sort_strings x xs t)
]

pub Distinct-sort_strings : (xs : List Name) → Distinct xs → Distinct (sort_strings xs)
unfolding sort_strings
Distinct-sort_strings [] d = tt
Distinct-sort_strings (x ∷ xs) d =
    Distinct-insert x (sort_strings xs) (λ m. d.0 (mem_of-sort_strings x xs m))
      (Distinct-sort_strings xs d.1)
