-- ===== src/Base/Count.antt =====
-- A list without repeats is no longer than a list that holds its elements.
use Prim.Native.Nat.{suc, ◌≤◌}
use mathlib.Core.Path.{◌≡◌, refl, sym, subst, ap, ◌∙◌}
use mathlib.Core.List.{List, [], ◌∷◌, Memᴰ}
use mathlib.Core.Logic.{◌≢◌}
use native.Mathlib.Omega.{arith}
use gorch.Base.Lists.{length, Distinct}

module _ {ℓ} {A : Type ℓ} where
  without : {a : A} {xs : List A} → Memᴰ a xs → List A
  without (Memᴰ.head {xs = xs} e) = xs
  without (Memᴰ.tail {x = x} m) = x ∷ without m

  length-without : {a : A} {xs : List A} (m : Memᴰ a xs) → suc (length (without m)) ≡ length xs
  unfolding without
  length-without (Memᴰ.head e) = refl
  length-without (Memᴰ.tail m) = ap suc (length-without m)

  mem-without : {a b : A} {xs : List A} (m : Memᴰ a xs) → b ≢ a → Memᴰ b xs → Memᴰ b (without m)
  unfolding without
  mem-without (Memᴰ.head e) n (Memᴰ.head e') = absurd (n (e' ∙ sym e))
  mem-without (Memᴰ.head e) n (Memᴰ.tail k) = k
  mem-without (Memᴰ.tail m) n (Memᴰ.head e') = Memᴰ.head e'
  mem-without (Memᴰ.tail m) n (Memᴰ.tail k) = Memᴰ.tail (mem-without m n k)

  pub Distinct-length-le :
      (xs ys : List A) → Distinct xs → ((a : A) → Memᴰ a xs → Memᴰ a ys) → length xs ≤ length ys
  Distinct-length-le [] ys d sub = omega arith
  Distinct-length-le (x ∷ xs) ys d sub =
      let m = sub x (Memᴰ.head refl) in
      omega (
        arith,
        length-without m,
        Distinct-length-le xs (without m) d.1
            λ a k. mem-without m (λ e. d.0 (subst (λ b. Memᴰ b xs) e k)) (sub a (Memᴰ.tail k)),
      )

  -- So a list without repeats that is as long as one around it misses nothing of it.
  pub Distinct-covers :
      (xs ys : List A)
      → Distinct xs
      → ((a : A) → Memᴰ a xs → Memᴰ a ys)
      → length ys ≤ length xs
      → (a : A) → Memᴰ a ys
      → ¬ ¬ (Memᴰ a xs)
  Distinct-covers xs ys d sub le a m absent =
      absurd (omega (arith, Distinct-length-le (a ∷ xs) ys (absent, d) more))
    where
      more : (b : A) → Memᴰ b (a ∷ xs) → Memᴰ b ys
      more b (Memᴰ.head e) = subst (λ c. Memᴰ c ys) (sym e) m
      more b (Memᴰ.tail k) = sub b k
