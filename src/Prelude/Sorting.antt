-- ===== src/Prelude/Sorting.antt =====
-- Insertion sort by a test, which stands for the sorting functions of the standard library, and texts in
-- their order.
use Prim.Native.String.{String, compare}
use mathlib.Core.Bool.{Bool}
use mathlib.Core.List.{List, [], ◌∷◌}
use text.Mathlib.Text.{is_lt}
use milton_prism.Prelude.Tests.{if◌then◌else◌}

module _ {ℓ} {A : Type ℓ} (less : A → A → Bool) where
  unfoldable pub insert_by : A → List A → List A
  insert_by x [] = x ∷ []
  insert_by x (y ∷ ys) = let rest = insert_by x ys in if less y x then y ∷ rest else x ∷ y ∷ ys

  -- Elements of which neither is less than the other keep their order.
  unfoldable pub sort_by : List A → List A
  unfolding insert_by
  sort_by [] = []
  sort_by (x ∷ xs) = insert_by x (sort_by xs)

-- `s < t` on texts.
abbrev pub text_lt : String → String → Bool
text_lt s t = is_lt (compare s t)

-- `sort.Strings`
abbrev pub sort_strings : List String → List String
sort_strings = sort_by text_lt
