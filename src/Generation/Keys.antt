-- ===== src/Generation/Keys.antt =====
-- The records as a map from keys: what an upsert does to the look-ups and to the lists.
use milton_prism.Prelude.{
  ◌⊎◌, sym, ◌∙◌, subst, ℕ, String, Bool, true, false, Option, none, some, List, [], ◌∷◌, ◌≡◌, refl,
  inl, inr, Bool-cases, eq_iff, ==_iff, ◌==◌, str_eq, ◌&&◌,
}
use milton_prism.Generation.Run.{any_failed}
use milton_prism.Generation.Records.{ServiceRecord, failed, status_eq}
use milton_prism.Generation.Store.{has_key, set_record, upsert_record, find_record, list_records}

-- What stands under the key of `new` once it is written.
abbrev pub merged : ServiceRecord → Option ServiceRecord → ServiceRecord
merged new none = new
merged new (some old) = set_record new old

&&_true : (a b : Bool) → (a && b) ≡ true → (a ≡ true) × (b ≡ true)
&&_true true true h = (refl, refl)
&&_true true false h = cc
&&_true false b h = cc

pub has_key-parts :
    (m : ℕ) (n : String) (r : ServiceRecord)
    → has_key m n r ≡ true
    → (r.migration_id ≡ m) × (r.service_name ≡ n)
has_key-parts m n r h =
    let both = &&_true (r.migration_id == m) (str_eq r.service_name n) h in
    ((==_iff r.migration_id m).0 both.0, (eq_iff r.service_name n).0 both.1)

pub has_key_self :
    (m : ℕ) (n : String) (r : ServiceRecord)
    → r.migration_id ≡ m
    → r.service_name ≡ n
    → has_key m n r ≡ true
has_key_self m n r p q = rw ((==_iff r.migration_id m).1 p, (eq_iff r.service_name n).1 q) refl

-- Records of one key have every key in common.
pub has_key-shared :
    (m : ℕ) (n : String) (r s : ServiceRecord)
    → has_key s.migration_id s.service_name r ≡ true
    → has_key m n r ≡ has_key m n s
has_key-shared m n r s h =
    let e = has_key-parts s.migration_id s.service_name r h in rw (e.0, e.1) refl

pub find-upsert_other :
    (m : ℕ) (n : String) (new : ServiceRecord) (rs : List ServiceRecord)
    → has_key m n new ≡ false
    → find_record m n (upsert_record new rs) ≡ find_record m n rs
unfolding find_record upsert_record set_record
find-upsert_other m n new [] h = rw h refl
find-upsert_other m n new (r ∷ rs) h =
    elim (Bool-cases (has_key new.migration_id new.service_name r)) [
      | inl mine ↦ rw (mine, upsert_record) (rw (h, has_key-shared m n r new mine, h) refl)
      | inr other ↦ rw (other, upsert_record) (rw (find-upsert_other m n new rs h) refl)
    ]

same_lookup :
    (m : ℕ) (n : String) (new r : ServiceRecord)
    → has_key m n new ≡ true
    → has_key new.migration_id new.service_name r ≡ false
    → has_key m n r ≡ false
same_lookup m n new r h other =
    let e = has_key-parts m n new h in
    subst (λ (i : ℕ). has_key i n r ≡ false) e.0
      (subst (λ (k : String). has_key new.migration_id k r ≡ false) e.1 other)

pub find-upsert_self :
    (m : ℕ) (n : String) (new : ServiceRecord) (rs : List ServiceRecord)
    → has_key m n new ≡ true
    → find_record m n (upsert_record new rs) ≡ some (merged new (find_record m n rs))
unfolding find_record upsert_record set_record
find-upsert_self m n new [] h = rw h refl
find-upsert_self m n new (r ∷ rs) h =
    elim (Bool-cases (has_key new.migration_id new.service_name r)) [
      | inl mine ↦ rw (mine, upsert_record) (rw (h, has_key-shared m n r new mine, h) refl)
      | inr other ↦
          rw (other, upsert_record)
            (rw (same_lookup m n new r h other, find-upsert_self m n new rs h) refl)
    ]

-- No two records have one key, as the unique index has it.
abbrev pub IsUnique : List ServiceRecord → Type 0
IsUnique [] = Unit
IsUnique (r ∷ rs) = (find_record r.migration_id r.service_name rs ≡ none) × IsUnique rs

set_record-key :
    (m : ℕ) (n : String) (new old : ServiceRecord)
    → has_key m n (set_record new old) ≡ has_key m n new
unfolding set_record
set_record-key m n new old = refl

turned :
    (r new : ServiceRecord)
    → has_key new.migration_id new.service_name r ≡ false
    → has_key r.migration_id r.service_name new ≡ false
turned r new h = elim (Bool-cases (has_key r.migration_id r.service_name new)) [
  | inr other ↦ other
  | inl mine ↦
      let e = has_key-parts r.migration_id r.service_name new mine in
      absurd (cc (h, has_key_self new.migration_id new.service_name r (sym e.0) (sym e.1)))
]

absent :
    (r new : ServiceRecord) (rs : List ServiceRecord)
    → has_key new.migration_id new.service_name r ≡ false
    → find_record r.migration_id r.service_name rs ≡ none
    → find_record r.migration_id r.service_name (upsert_record new rs) ≡ none
absent r new rs other h =
    find-upsert_other r.migration_id r.service_name new rs (turned r new other) ∙ h

none_under :
    (m : ℕ) (n : String) (x : ServiceRecord) (rs : List ServiceRecord)
    → has_key m n x ≡ true
    → find_record x.migration_id x.service_name rs ≡ none
    → find_record m n rs ≡ none
none_under m n x rs mine h =
    let e = has_key-parts m n x mine in
    subst (λ (i : ℕ). find_record i n rs ≡ none) e.0
      (subst (λ (k : String). find_record x.migration_id k rs ≡ none) e.1 h)

pub upsert_record-IsUnique :
    (new : ServiceRecord) (rs : List ServiceRecord) → IsUnique rs → IsUnique (upsert_record new rs)
unfolding upsert_record set_record find_record
upsert_record-IsUnique new [] u = (refl, tt)
upsert_record-IsUnique new (r ∷ rs) u =
    elim (Bool-cases (has_key new.migration_id new.service_name r)) [
      | inl mine ↦
          rw (mine, upsert_record) (none_under new.migration_id new.service_name r rs mine u.0, u.1)
      | inr other ↦
          rw (other, upsert_record) (absent r new rs other u.0, upsert_record-IsUnique new rs u.1)
    ]

any_failed-here :
    (x : ServiceRecord) (rs : List ServiceRecord)
    → status_eq x.status failed ≡ true
    → any_failed (x ∷ rs) ≡ true
unfolding any_failed
any_failed-here x rs h = rw h refl

any_failed-later :
    (x : ServiceRecord) (rs : List ServiceRecord)
    → any_failed rs ≡ true
    → any_failed (x ∷ rs) ≡ true
unfolding any_failed
any_failed-later x rs h = elim (Bool-cases (status_eq x.status failed)) [
  | inl q ↦ rw q refl
  | inr q ↦ rw q h
]

any_failed-cases :
    (x : ServiceRecord) (rs : List ServiceRecord)
    → any_failed (x ∷ rs) ≡ true
    → (status_eq x.status failed ≡ true) ⊎ (any_failed rs ≡ true)
unfolding any_failed
any_failed-cases x rs h = elim (Bool-cases (status_eq x.status failed)) [
  | inl q ↦ inl q
  | inr q ↦ inr (rw q at h)
]

list_records-cons :
    (m : ℕ) (x : ServiceRecord) (rs : List ServiceRecord)
    → any_failed (list_records m rs) ≡ true
    → any_failed (list_records m (x ∷ rs)) ≡ true
unfolding list_records
list_records-cons m x rs h = elim (Bool-cases (x.migration_id == m)) [
  | inl q ↦ rw (q, list_records) (any_failed-later x (list_records m rs) h)
  | inr q ↦ rw (q, list_records) h
]

abbrev IsFailed : Option ServiceRecord → Type 0
IsFailed none = Unit
IsFailed (some r) = status_eq r.status failed ≡ true

found_here :
    (m : ℕ) (n : String) (x : ServiceRecord) (rs : List ServiceRecord) (r : ServiceRecord)
    → has_key m n x ≡ true
    → some x ≡ some r
    → status_eq r.status failed ≡ true
    → any_failed (list_records m (x ∷ rs)) ≡ true
unfolding list_records
found_here m n x rs r mine e f =
    rw ((==_iff x.migration_id m).1 (has_key-parts m n x mine).0, list_records)
      (any_failed-here x (list_records m rs) (subst (λ o. IsFailed o) (sym e) f))

-- A failed record under some key of the migration is a failed record of its list.
pub find-any_failed :
    (m : ℕ) (n : String) (rs : List ServiceRecord) (r : ServiceRecord)
    → find_record m n rs ≡ some r
    → status_eq r.status failed ≡ true
    → any_failed (list_records m rs) ≡ true
unfolding find_record
find-any_failed m n [] r h f = cc
find-any_failed m n (x ∷ rs) r h f = elim (Bool-cases (has_key m n x)) [
  | inl mine ↦ found_here m n x rs r mine (rw mine at h) f
  | inr other ↦ list_records-cons m x rs (find-any_failed m n rs r (rw other at h) f)
]

pub find-later :
    (m : ℕ) (n : String) (x r : ServiceRecord) (rs : List ServiceRecord)
    → find_record x.migration_id x.service_name rs ≡ none
    → find_record m n rs ≡ some r
    → find_record m n (x ∷ rs) ≡ some r
unfolding find_record
find-later m n x r rs none_there h = elim (Bool-cases (has_key m n x)) [
  | inr other ↦ rw other h
  | inl mine ↦ absurd (cc (h, none_under m n x rs mine none_there))
]

abbrev FailedAt : ℕ → List ServiceRecord → Type 0
FailedAt m rs =
    (n : String) × (r : ServiceRecord) × (find_record m n rs ≡ some r)
    × (status_eq r.status failed ≡ true)

pub lift_found :
    (m : ℕ) (x : ServiceRecord) (rs : List ServiceRecord)
    → find_record x.migration_id x.service_name rs ≡ none
    → FailedAt m rs
    → FailedAt m (x ∷ rs)
lift_found m x rs u f = (f.0, f.1, find-later m f.0 x f.1 rs u f.2, f.3)

found_self :
    (m : ℕ) (x : ServiceRecord) (rs : List ServiceRecord)
    → (x.migration_id == m) ≡ true
    → find_record m x.service_name (x ∷ rs) ≡ some x
unfolding find_record
found_self m x rs q = rw (has_key_self m x.service_name x ((==_iff x.migration_id m).0 q) refl) refl

-- With unique keys a failed record of the list stands under its key.
pub any_failed-find :
    (m : ℕ) (rs : List ServiceRecord)
    → IsUnique rs
    → any_failed (list_records m rs) ≡ true
    → (n : String) × (r : ServiceRecord) × (find_record m n rs ≡ some r)
      × (status_eq r.status failed ≡ true)
unfolding list_records any_failed
any_failed-find m [] u h = cc
any_failed-find m (x ∷ rs) u h = elim (Bool-cases (x.migration_id == m)) [
  | inr q ↦ lift_found m x rs u.0 (any_failed-find m rs u.1 (rw q at h))
  | inl q ↦ elim (any_failed-cases x (list_records m rs) (rw q at h)) [
    | inl f ↦ (x.service_name, x, found_self m x rs q, f)
    | inr later ↦ lift_found m x rs u.0 (any_failed-find m rs u.1 later)
  ]
]
