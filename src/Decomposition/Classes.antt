-- ===== src/Decomposition/Classes.antt =====
-- The infrastructure detector puts each module into one class.
use milton_prism.Prelude.{
  or_assoc, ℕ, String, Bool, true, false, not, ◌&&◌, ◌||◌, List, [], ◌∷◌, ◌≡◌, refl, sym, ◌∙◌, ap,
  inl, inr, Bool-cases, any, str_eq, eq_iff, if◌then◌else◌, ltb, length,
}
use milton_prism.Decomposition.Domain.{Edge, Classification, is_in, count_true}
use milton_prism.Decomposition.Detector.{
  add_module, select, is_test_module, group_of, importers, hub_threshold, classify_by_fan_in,
  classify_by_group, by_groups, blueprint_groups, all_modules, detect,
}

is_in-select :
    (p : String → Bool) (m : String) (ms : List String)
    → is_in m (select p ms) ≡ (is_in m ms && p m)
unfolding select
is_in-select p m [] = refl
is_in-select p m (n ∷ ns) = elim (Bool-cases (str_eq n m)) [
  | inl same ↦ elim (Bool-cases (p n)) [
    | inl passes ↦
        let q : p m ≡ true = rw (← (eq_iff n m).0 same) passes in rw (passes, same, q) refl
    | inr fails ↦
        let q : p m ≡ false = rw (← (eq_iff n m).0 same) fails in
        rw (fails, same) (is_in-select p m ns ∙ rw q (and_false (is_in m ns)))
  ]
  | inr other ↦ elim (Bool-cases (p n)) [
    | inl passes ↦ rw (passes, other) (is_in-select p m ns)
    | inr fails ↦ rw (fails, other) (is_in-select p m ns)
  ]
]
  where
    and_false : (b : Bool) → (b && false) ≡ false
    and_false true = refl
    and_false false = refl

-- The number of classes that hold the module.
abbrev pub classes_of : String → Classification → ℕ
classes_of m cls = count_true (is_in m cls.infra ∷ is_in m cls.domain ∷ is_in m cls.tests ∷ [])

-- One of three tests holds of a listed module.
three_ways :
    (listed test a : Bool)
    → count_true
        ((listed && (not test && not a)) ∷ (listed && (not test && a)) ∷ (listed && test) ∷ [])
      ≡ (if listed then 1 else 0)
three_ways true true a = refl
three_ways true false true = refl
three_ways true false false = refl
three_ways false test a = refl

nested_ways :
    (listed test a : Bool)
    → count_true
        (((listed && not test) && a) ∷ ((listed && not test) && not a) ∷ (listed && test) ∷ [])
      ≡ (if listed then 1 else 0)
nested_ways true true a = refl
nested_ways true false true = refl
nested_ways true false false = refl
nested_ways false test a = refl

by_fan_in :
    (edges : List Edge) (all : List String) (m : String)
    → classes_of m (classify_by_fan_in edges all) ≡ (if is_in m all then 1 else 0)
unfolding classify_by_fan_in
by_fan_in edges all m =
    let non_test = select (λ n. not (is_test_module n)) all in
    let hub = λ (n : String). ltb (hub_threshold (length non_test)) (length (importers n edges)) in
    rw
      (
        is_in-select hub m non_test,
        is_in-select (λ n. not (hub n)) m non_test,
        is_in-select is_test_module m all,
        is_in-select (λ n. not (is_test_module n)) m all,
      )
      (nested_ways (is_in m all) (is_test_module m) (hub m))

by_group :
    (groups all : List String) (m : String)
    → classes_of m (classify_by_group groups all) ≡ (if is_in m all then 1 else 0)
unfolding classify_by_group
by_group groups all m =
    rw
      (
        is_in-select (λ n. not (is_test_module n) && not (is_in (group_of n) groups)) m all,
        is_in-select (λ n. not (is_test_module n) && is_in (group_of n) groups) m all,
        is_in-select is_test_module m all,
      )
      (three_ways (is_in m all) (is_test_module m) (is_in (group_of m) groups))

either :
    (edges : List Edge) (groups all : List String) (m : String)
    → classes_of m (by_groups edges groups all) ≡ (if is_in m all then 1 else 0)
either edges [] all m = by_fan_in edges all m
either edges (g ∷ gs) all m = by_group (g ∷ gs) all m

-- A name is an end of an edge.
abbrev pub is_end : String → Edge → Bool
is_end m e = str_eq e.from_module m || str_eq e.to_module m

is_in-add :
    (m n : String) (ns : List String)
    → is_in m (if is_in n ns then ns else n ∷ ns) ≡ (str_eq n m || is_in m ns)
is_in-add m n ns = elim (Bool-cases (is_in n ns)) [
  | inl old ↦ rw old (elim (Bool-cases (str_eq n m)) [
    | inl same ↦ rw (same, ← (eq_iff n m).0 same) old
    | inr other ↦ rw other refl
  ])
  | inr new ↦ rw new refl
]

is_in-all_modules : (m : String) (es : List Edge) → is_in m (all_modules es) ≡ any (is_end m) es
unfolding all_modules
is_in-all_modules m [] = refl
is_in-all_modules m (e ∷ es) =
    is_in-add m e.from_module (add_module e.to_module (all_modules es))
    ∙ ap (λ b. str_eq e.from_module m || b)
        (is_in-add m e.to_module (all_modules es)
          ∙ ap (λ b. str_eq e.to_module m || b) (is_in-all_modules m es))
    ∙ sym (or_assoc (str_eq e.from_module m) (str_eq e.to_module m) (any (is_end m) es))

-- Each module that is an end of an edge is put into exactly one of the three classes, and no other module
-- into any.
pub detect-classes :
    (edges : List Edge) (m : String)
    → classes_of m (detect edges) ≡ (if any (is_end m) edges then 1 else 0)
unfolding detect
detect-classes edges m =
    either edges (blueprint_groups (all_modules edges)) (all_modules edges) m
    ∙ ap (λ b. if b then 1 else 0) (is_in-all_modules m edges)
