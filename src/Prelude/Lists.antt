-- ===== src/Prelude/Lists.antt =====
-- Lists measured by native numbers, and predicates on lists by recursion.
use Prim.Native.Nat.{ℕ, zero, suc, ◌+◌}
use mathlib.Core.Path.{◌≡◌, refl, subst}
use mathlib.Core.Logic.{◌↔◌, ◌⊎◌, inl, inr}
use mathlib.Core.Bool.{Bool, true, false, ◌||◌}
use mathlib.Core.Option.{Option, none, some}
use mathlib.Core.List.{List, [], ◌∷◌, ◌++◌}
use native.Mathlib.Omega.{arith}

pub or_cases : (a b : Bool) → (a || b) ≡ true → (a ≡ true) ⊎ (b ≡ true)
or_cases true b h = inl refl
or_cases false b h = inr h

pub or_right : (a b : Bool) → b ≡ true → (a || b) ≡ true
or_right true b h = refl
or_right false b h = h

or_false_left : (a b : Bool) → (a || b) ≡ false → a ≡ false
or_false_left true b h = cc
or_false_left false b h = refl

or_false_right : (a b : Bool) → (a || b) ≡ false → b ≡ false
or_false_right true b h = cc
or_false_right false b h = h

module _ {ℓ} {A : Type ℓ} where
  abbrev pub length : List A → ℕ
  length [] = 0
  length (x ∷ xs) = suc (length xs)

  abbrev pub get_elem? : List A → ℕ → Option A
  get_elem? [] i = none
  get_elem? (x ∷ xs) zero = some x
  get_elem? (x ∷ xs) (suc i) = get_elem? xs i

  pub length-append : (xs ys : List A) → length (xs ++ ys) ≡ length xs + length ys
  length-append [] ys = omega arith
  length-append (x ∷ xs) ys = omega (arith, length-append xs ys)

  -- Every element satisfies `P`.
  abbrev pub All {κ} : (A → Type κ) → List A → Type κ
  All P [] = Unit
  All P (x ∷ xs) = P x × All P xs

  pub All-append {κ} : (P : A → Type κ) (xs ys : List A) → All P xs → All P ys → All P (xs ++ ys)
  All-append P [] ys hx hy = hy
  All-append P (x ∷ xs) ys hx hy = (hx.0, All-append P xs ys hx.1 hy)

  abbrev InSome {κ} : (A → Type κ) → Type κ → Option A → Type κ
  InSome P N none = N
  InSome P N (some x) = P x

  pub some_eq {κ} : (P : A → Type κ) (y x : A) → P y → some y ≡ some x → P x
  some_eq P y x h e = subst (λ o. InSome P (P x) o) e h

  -- What holds of every element holds of the one at an index.
  pub All-get {κ} :
      (P : A → Type κ) (xs : List A) (i : ℕ) (x : A) → All P xs → get_elem? xs i ≡ some x → P x
  All-get P [] i x h e = cc
  All-get P (y ∷ ys) zero x h e = some_eq P y x h.0 e
  All-get P (y ∷ ys) (suc i) x h e = All-get P ys i x h.1 e

  -- Some element satisfies `P`.
  abbrev pub Any : (A → Type 0) → List A → Type 0
  Any P [] = ⊥
  Any P (x ∷ xs) = P x ⊎ Any P xs

  pub Any-map : (P Q : A → Type 0) (xs : List A) → ((x : A) → P x → Q x) → Any P xs → Any Q xs
  Any-map P Q [] f h = h
  Any-map P Q (x ∷ xs) f (inl h) = inl (f x h)
  Any-map P Q (x ∷ xs) f (inr h) = inr (Any-map P Q xs f h)

  pub Any-append : (P : A → Type 0) (xs ys : List A) → Any P (xs ++ ys) ↔ (Any P xs ⊎ Any P ys)
  Any-append P [] ys = (λ h. inr h, λ h. elim h [ inl k ↦ elim k [ ] | inr k ↦ k ])
  Any-append P (x ∷ xs) ys = (
    λ h. elim h [
      | inl k ↦ inl (inl k)
      | inr k ↦ elim ((Any-append P xs ys).0 k) [ inl a ↦ inl (inr a) | inr b ↦ inr b ]
    ],
    λ h. elim h [
      | inl k ↦ elim k [ inl a ↦ inl a | inr a ↦ inr ((Any-append P xs ys).1 (inl a)) ]
      | inr k ↦ inr ((Any-append P xs ys).1 (inr k))
    ],
  )

  -- Some element passes a test.
  abbrev pub any : (A → Bool) → List A → Bool
  any p [] = false
  any p (x ∷ xs) = p x || any p xs

  pub any_iff : (p : A → Bool) (xs : List A) → (any p xs ≡ true) ↔ Any (λ x. p x ≡ true) xs
  any_iff p [] = (λ h. cc, λ h. elim h [ ])
  any_iff p (x ∷ xs) = (
    λ h. elim (or_cases (p x) (any p xs) h) [ inl a ↦ inl a | inr b ↦ inr ((any_iff p xs).0 b) ],
    λ h. elim h [ inl a ↦ rw a refl | inr b ↦ or_right (p x) (any p xs) ((any_iff p xs).1 b) ],
  )

  pub Any-elim : (P : A → Type 0) (Q : Type 0) (xs : List A) → ((x : A) → P x → Q) → Any P xs → Q
  Any-elim P Q [] f h = elim h [ ]
  Any-elim P Q (x ∷ xs) f (inl h) = f x h
  Any-elim P Q (x ∷ xs) f (inr h) = Any-elim P Q xs f h

  -- What no element passes, the one at an index does not pass.
  pub any-false_get :
      (p : A → Bool) (xs : List A) (i : ℕ) (x : A)
      → any p xs ≡ false
      → get_elem? xs i ≡ some x
      → p x ≡ false
  any-false_get p [] i x h e = cc
  any-false_get p (y ∷ ys) zero x h e =
      some_eq (λ z. p z ≡ false) y x (or_false_left (p y) (any p ys) h) e
  any-false_get p (y ∷ ys) (suc i) x h e =
      any-false_get p ys i x (or_false_right (p y) (any p ys) h) e
