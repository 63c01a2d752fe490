-- ===== src/Base/Names.antt =====
-- Service names are texts. They are compared by a decision, and sorted by code points.
pub mod Sort
use Prim.Native.Nat.{Ordering}
use Prim.Native.String.{String, compare}
use mathlib.Core.Path.{◌≡◌, refl}
use mathlib.Core.Logic.{◌↔◌}
use mathlib.Core.Bool.{Bool, true, false, false≢true}
use mathlib.Core.List.{List, [], ◌∷◌}
use text.Mathlib.Text.{◌==◌}
use text.Mathlib.TextEquality.{eq_iff}

abbrev pub Name : Type 0
Name = String

unfoldable pub name_discrete : Discrete Name
name_discrete a b = by_test (a == b) (eq_iff a b)
  where
    by_test : (t : Bool) → (t ≡ true) ↔ (a ≡ b) → Dec (a ≡ b)
    by_test true h = yes (h.0 refl)
    by_test false h = no (λ e. false≢true (h.1 e))

-- sort.Strings: a permutation of its argument in the order of texts.
insert_sorted : Name → List Name → List Name
insert_sorted a [] = a ∷ []
insert_sorted a (b ∷ bs) =
    let rest = b ∷ insert_sorted a bs in elim (compare a b) [ Ordering.gt ↦ rest | _ ↦ a ∷ b ∷ bs ]

unfoldable pub sort_strings : List Name → List Name
unfolding insert_sorted
sort_strings [] = []
sort_strings (a ∷ as') = insert_sorted a (sort_strings as')
