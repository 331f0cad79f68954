-- ===== src/Decomposition/Flags.antt =====
-- An array of flags of which some are raised, as one function of the position.
use milton_prism.Prelude.{
  subst, ℕ, zero, suc, ◌+◌, ◌≤◌, Bool, true, false, ◌||◌, Option, none, some, List, [], ◌∷◌, ◌≡◌,
  refl, sym, ap, or_assoc, ◌==◌, arith,
}
use milton_prism.Decomposition.Domain.{set_true}

abbrev pub is_at : Option ℕ → ℕ → Bool
is_at none j = false
is_at (some i) j = i == j

-- The flags from position `i` on, with those of `f` raised.
unfoldable pub marks : (ℕ → Bool) → ℕ → List Bool → List Bool
marks f i [] = []
marks f i (b ∷ flags) = (b || f i) ∷ marks f (i + 1) flags

pub marks-marks :
    (f g : ℕ → Bool) (i : ℕ) (flags : List Bool)
    → marks g i (marks f i flags) ≡ marks (λ j. f j || g j) i flags
unfolding marks
marks-marks f g i [] = refl
marks-marks f g i (b ∷ flags) = rw (marks-marks f g (i + 1) flags, or_assoc b (f i) (g i)) refl

pub marks_none : (i : ℕ) (flags : List Bool) → marks (λ j. false) i flags ≡ flags
unfolding marks
marks_none i [] = refl
marks_none i (true ∷ flags) = ap (λ r. true ∷ r) (marks_none (i + 1) flags)
marks_none i (false ∷ flags) = ap (λ r. false ∷ r) (marks_none (i + 1) flags)

-- A position that has been passed raises no flag.
pub marks_before : (k i : ℕ) (flags : List Bool) → k + 1 ≤ i → marks (λ j. k == j) i flags ≡ flags
unfolding marks
marks_before k i [] h = refl
marks_before k i (b ∷ flags) h = rw (marks_before k (i + 1) flags (omega arith)) (ground arith)

pub set_true-marks :
    (k i : ℕ) (flags : List Bool) → set_true (some k) flags ≡ marks (λ j. (i + k) == j) i flags
unfolding marks
set_true-marks zero i [] = refl
set_true-marks (suc k) i [] = refl
set_true-marks zero i (b ∷ flags) =
    rw (marks_before (i + 0) (i + 1) flags (omega arith)) (ground arith)
set_true-marks (suc k) i (b ∷ flags) = rw (set_true-marks k (i + 1) flags) (ground arith)

pub set_index-marks :
    (o : Option ℕ) (flags : List Bool) → set_true o flags ≡ marks (is_at o) 0 flags
set_index-marks none flags = sym (marks_none 0 flags)
set_index-marks (some k) flags =
    let same : 0 + k ≡ k = omega arith in
    subst (λ n. set_true (some k) flags ≡ marks (λ j. n == j) 0 flags) same
      (set_true-marks k 0 flags)
