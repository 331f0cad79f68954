-- ===== src/Decomposition/Augmented.antt =====
-- What the foreign keys add to the candidate at one place.
use milton_prism.Prelude.{
  ℕ, zero, suc, String, Bool, true, false, not, ◌&&◌, ◌||◌, some, List, [], ◌∷◌, ◌≡◌, refl, sym,
  ◌∙◌, ap, inl, inr, Bool-cases, any, any-false_get, or_assoc, or_false, get_elem?, some_eq,
  if◌then◌else◌, str_eq, eq_iff, is_empty, sort_strings,
}
use milton_prism.Migration.Domain.{CrossServiceFk}
use milton_prism.Decomposition.Domain.{ServiceCandidate, is_in}
use milton_prism.Decomposition.Ownership.{is_named, append_dep, add_dep, add_deps, sort_deps}
use milton_prism.Decomposition.Members.{is_key_to, is_in-append_dep}
use milton_prism.Decomposition.Places.{IsLast}

str_eq_comm : (s t : String) → str_eq s t ≡ str_eq t s
str_eq_comm s t = elim (Bool-cases (str_eq s t)) [
  | inl same ↦ rw (same, (eq_iff t s).1 (sym ((eq_iff s t).0 same))) refl
  | inr other ↦ elim (Bool-cases (str_eq t s)) [
    | inl same ↦ absurd (cc (other, (eq_iff s t).1 (sym ((eq_iff t s).0 same))))
    | inr too ↦ rw (other, too) refl
  ]
]

abbrev IsLastNamed : List ServiceCandidate → ℕ → Type 0
IsLastNamed ks i = IsLast (λ (k : ServiceCandidate). k.name) ks i

abbrev one_dep : String → String → ServiceCandidate → ServiceCandidate
one_dep owner d k = if str_eq k.name owner then append_dep d k else k

one_dep-name : (owner d : String) (k : ServiceCandidate) → (one_dep owner d k).name ≡ k.name
one_dep-name owner d k = elim (Bool-cases (str_eq k.name owner)) [
  | inl same ↦ rw same refl
  | inr other ↦ rw other refl
]

named-add_dep :
    (owner d n : String) (ks : List ServiceCandidate)
    → is_named n (add_dep owner d ks) ≡ is_named n ks
unfolding add_dep
named-add_dep owner d n [] = refl
named-add_dep owner d n (k ∷ ks) = elim (Bool-cases (is_named owner ks)) [
  | inl later ↦ rw (later, named-add_dep owner d n ks) refl
  | inr none_later ↦ rw (none_later, one_dep-name owner d k) refl
]

add_dep-IsLast :
    (owner d : String) (ks : List ServiceCandidate) (i : ℕ)
    → IsLastNamed ks i
    → IsLastNamed (add_dep owner d ks) i
unfolding add_dep
add_dep-IsLast owner d [] i h = h
add_dep-IsLast owner d (k ∷ ks) zero h = elim (Bool-cases (is_named owner ks)) [
  | inl later ↦ rw later (named-add_dep owner d k.name ks ∙ h)
  | inr none_later ↦ rw (none_later, one_dep-name owner d k) h
]
add_dep-IsLast owner d (k ∷ ks) (suc i) h = elim (Bool-cases (is_named owner ks)) [
  | inl later ↦ rw later (add_dep-IsLast owner d ks i h)
  | inr none_later ↦ rw none_later h
]

not_the_owner :
    (owner : String) (k : ServiceCandidate) (ks : List ServiceCandidate)
    → is_named owner ks ≡ true
    → is_named k.name ks ≡ false
    → str_eq k.name owner ≡ false
not_the_owner owner k ks later last = elim (Bool-cases (str_eq k.name owner)) [
  | inl same ↦ absurd (cc (later, last, ap (λ n. is_named n ks) ((eq_iff k.name owner).0 same)))
  | inr other ↦ other
]

add_dep-get :
    (owner d : String) (ks : List ServiceCandidate) (i : ℕ) (k : ServiceCandidate)
    → IsLastNamed ks i
    → get_elem? ks i ≡ some k
    → get_elem? (add_dep owner d ks) i ≡ some (one_dep owner d k)
unfolding add_dep
add_dep-get owner d [] i k h e = cc
add_dep-get owner d (x ∷ ks) zero k h e =
    some_eq (λ y. get_elem? (add_dep owner d (x ∷ ks)) 0 ≡ some (one_dep owner d y)) x k here e
  where
    here : get_elem? (add_dep owner d (x ∷ ks)) 0 ≡ some (one_dep owner d x)
    here = elim (Bool-cases (is_named owner ks)) [
      | inl later ↦ rw (later, not_the_owner owner x ks later h) refl
      | inr none_later ↦ rw none_later refl
    ]
add_dep-get owner d (x ∷ ks) (suc i) k h e = elim (Bool-cases (is_named owner ks)) [
  | inl later ↦ rw later (add_dep-get owner d ks i k h e)
  | inr none_later ↦
      rw
        (
          none_later,
          any-false_get (λ (y : ServiceCandidate). str_eq y.name owner) ks i k none_later e,
        )
        e
]

-- The keys, added to one candidate.
unfoldable pub with_keys : List CrossServiceFk → ServiceCandidate → ServiceCandidate
with_keys [] k = k
with_keys (fk ∷ fks) k =
    with_keys fks (if is_empty fk.ref_service then k else one_dep fk.owner_service fk.ref_service k)

pub add_deps-get :
    (fks : List CrossServiceFk) (ks : List ServiceCandidate) (i : ℕ) (k : ServiceCandidate)
    → IsLastNamed ks i
    → get_elem? ks i ≡ some k
    → get_elem? (add_deps fks ks) i ≡ some (with_keys fks k)
unfolding add_deps with_keys
add_deps-get [] ks i k h e = e
add_deps-get (fk ∷ fks) ks i k h e = elim (Bool-cases (is_empty fk.ref_service)) [
  | inl unresolved ↦ rw unresolved (add_deps-get fks ks i k h e)
  | inr resolved ↦ rw resolved (
      add_deps-get fks (add_dep fk.owner_service fk.ref_service ks) i
        (one_dep fk.owner_service fk.ref_service k)
        (add_dep-IsLast fk.owner_service fk.ref_service ks i h)
        (add_dep-get fk.owner_service fk.ref_service ks i k h e))
]

pub sort_deps-get :
    (ks : List ServiceCandidate) (i : ℕ) (k : ServiceCandidate)
    → get_elem? ks i ≡ some k
    → get_elem? (sort_deps ks) i ≡ some (record k { deps = sort_strings k.deps })
unfolding sort_deps
sort_deps-get [] i k e = cc
sort_deps-get (x ∷ ks) zero k e =
    some_eq
      (λ (y : ServiceCandidate).
        some (record x { deps = sort_strings x.deps })
        ≡ some (record y { deps = sort_strings y.deps }))
      x k refl e
sort_deps-get (x ∷ ks) (suc i) k e = sort_deps-get ks i k e

-- A key that adds a dependency.
abbrev pub adds : String → String → CrossServiceFk → Bool
adds name d k = not (is_empty k.ref_service) && is_key_to name d k

pub with_keys-name :
    (fks : List CrossServiceFk) (k : ServiceCandidate) → (with_keys fks k).name ≡ k.name
unfolding with_keys
with_keys-name [] k = refl
with_keys-name (fk ∷ fks) k = elim (Bool-cases (is_empty fk.ref_service)) [
  | inl unresolved ↦ rw (unresolved, with_keys) (with_keys-name fks k)
  | inr resolved ↦
      rw (resolved, with_keys)
        (with_keys-name fks (one_dep fk.owner_service fk.ref_service k)
          ∙ one_dep-name fk.owner_service fk.ref_service k)
]

is_in-one_dep :
    (d : String) (fk : CrossServiceFk) (k : ServiceCandidate)
    → is_in d (one_dep fk.owner_service fk.ref_service k).deps
      ≡ (is_in d k.deps || is_key_to k.name d fk)
is_in-one_dep d fk k =
    rw (str_eq_comm fk.owner_service k.name) (elim (Bool-cases (str_eq k.name fk.owner_service)) [
      | inl same ↦ rw same (is_in-append_dep d fk.ref_service k)
      | inr other ↦ rw other (sym (or_false (is_in d k.deps)))
    ])

pub is_in-with_keys :
    (d : String) (fks : List CrossServiceFk) (k : ServiceCandidate)
    → is_in d (with_keys fks k).deps ≡ (is_in d k.deps || any (adds k.name d) fks)
unfolding with_keys
is_in-with_keys d [] k = sym (or_false (is_in d k.deps))
is_in-with_keys d (fk ∷ fks) k = elim (Bool-cases (is_empty fk.ref_service)) [
  | inl unresolved ↦ rw (unresolved, with_keys) (is_in-with_keys d fks k)
  | inr resolved ↦
      let k' = one_dep fk.owner_service fk.ref_service k in
      rw (resolved, with_keys)
        (is_in-with_keys d fks k'
          ∙ (rw (is_in-one_dep d fk k, one_dep-name fk.owner_service fk.ref_service k)
              (or_assoc (is_in d k.deps) (is_key_to k.name d fk) (any (adds k.name d) fks))))
]
