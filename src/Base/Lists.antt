-- ===== src/Base/Lists.antt =====
-- Lists measured by native numbers, membership that can be taken apart, and lists without repeats.
use Prim.Native.Nat.{ℕ, suc, ◌+◌}
use mathlib.Core.Path.{◌≡◌, refl, sym, subst}
use mathlib.Core.Logic.{◌⊎◌, inl, inr}
use mathlib.Core.List.{List, [], ◌∷◌, ◌++◌, Memᴰ}
use mathlib.Core.List.Memᴰ.{cases_cons}
use native.Mathlib.Omega.{arith}

module _ {ℓ} {A : Type ℓ} where
  abbrev pub length : List A → ℕ
  length [] = 0
  length (x ∷ xs) = suc (length xs)

  pub length-append : (xs ys : List A) → length (xs ++ ys) ≡ length xs + length ys
  length-append [] ys = omega arith
  length-append (x ∷ xs) ys = omega (arith, length-append xs ys)

  -- Every element of a list, by recursion.
  abbrev pub All {κ} : (A → Type κ) → List A → Type κ
  All P [] = Unit
  All P (x ∷ xs) = P x × All P xs

  pub All-mem {κ} : (P : A → Type κ) {a : A} {xs : List A} → Memᴰ a xs → All P xs → P a
  All-mem P (Memᴰ.head e) h = subst P (sym e) h.0
  All-mem P (Memᴰ.tail m) h = All-mem P m h.1

  pub All-of {κ} : (P : A → Type κ) (xs : List A) → ((a : A) → Memᴰ a xs → P a) → All P xs
  All-of P [] f = tt
  All-of P (x ∷ xs) f = (f x (Memᴰ.head refl), All-of P xs (λ a m. f a (Memᴰ.tail m)))

  -- No element twice.
  abbrev pub Distinct : List A → Type ℓ
  Distinct [] = Unit
  Distinct (x ∷ xs) = (¬ (Memᴰ x xs)) × Distinct xs

  pub mem-append_cases :
      {a : A} (xs : List A) {ys : List A} → Memᴰ a (xs ++ ys) → Memᴰ a xs ⊎ Memᴰ a ys
  mem-append_cases [] m = inr m
  mem-append_cases (x ∷ xs) (Memᴰ.head e) = inl (Memᴰ.head e)
  mem-append_cases (x ∷ xs) (Memᴰ.tail m) = elim (mem-append_cases xs m) [
    | inl p ↦ inl (Memᴰ.tail p)
    | inr q ↦ inr q
  ]

  pub mem-append_left : {a : A} {xs : List A} (ys : List A) → Memᴰ a xs → Memᴰ a (xs ++ ys)
  mem-append_left ys (Memᴰ.head e) = Memᴰ.head e
  mem-append_left ys (Memᴰ.tail m) = Memᴰ.tail (mem-append_left ys m)

  pub mem-append_right : {a : A} (xs : List A) {ys : List A} → Memᴰ a ys → Memᴰ a (xs ++ ys)
  mem-append_right [] m = m
  mem-append_right (x ∷ xs) m = Memᴰ.tail (mem-append_right xs m)

  pub Distinct-append :
      (xs ys : List A)
      → Distinct xs
      → Distinct ys
      → ((a : A) → Memᴰ a xs → ¬ (Memᴰ a ys))
      → Distinct (xs ++ ys)
  Distinct-append [] ys dx dy apart = dy
  Distinct-append (x ∷ xs) ys dx dy apart = (
    λ m. elim (mem-append_cases xs m) [ inl p ↦ dx.0 p | inr q ↦ apart x (Memᴰ.head refl) q ],
    Distinct-append xs ys dx.1 dy (λ a m. apart a (Memᴰ.tail m)),
  )

-- Membership is decided where equality is.
module _ {ℓ} {A : Type ℓ} (eq : Discrete A) where
  unfoldable pub mem_dec : (a : A) (xs : List A) → Dec (Memᴰ a xs)
  mem_dec a [] = no (λ m. elim m [ ])
  mem_dec a (x ∷ xs) = extend (eq a x) (mem_dec a xs)
    where
      extend : Dec (a ≡ x) → Dec (Memᴰ a xs) → Dec (Memᴰ a (x ∷ xs))
      extend (yes e) d = yes (Memᴰ.head e)
      extend (no n) (yes m) = yes (Memᴰ.tail m)
      extend (no n) (no k) = no (λ m. elim (cases_cons m) [ inl e ↦ n e | inr t ↦ k t ])
