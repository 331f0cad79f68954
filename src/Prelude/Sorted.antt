-- ===== src/Prelude/Sorted.antt =====
-- What sorting leaves alone: which elements pass a test.
use mathlib.Core.Path.{◌≡◌, refl, ap, ◌∙◌}
use mathlib.Core.Logic.{inl, inr}
use mathlib.Core.Bool.{Bool, ◌||◌}
use mathlib.Core.List.{List, [], ◌∷◌}
use milton_prism.Prelude.Tests.{Bool-cases, or_swap}
use milton_prism.Prelude.Lists.{any}
use milton_prism.Prelude.Sorting.{insert_by, sort_by}

module _ {ℓ} {A : Type ℓ} (less : A → A → Bool) (p : A → Bool) where
  any-insert : (x : A) (xs : List A) → any p (insert_by less x xs) ≡ (p x || any p xs)
  unfolding insert_by
  any-insert x [] = refl
  any-insert x (y ∷ ys) = elim (Bool-cases (less y x)) [
    | inl before ↦ rw (before, any-insert x ys) (or_swap (p y) (p x) (any p ys))
    | inr after ↦ rw after refl
  ]

  pub any-sort : (xs : List A) → any p (sort_by less xs) ≡ any p xs
  unfolding sort_by
  any-sort [] = refl
  any-sort (x ∷ xs) = any-insert x (sort_by less xs) ∙ ap (λ b. p x || b) (any-sort xs)
