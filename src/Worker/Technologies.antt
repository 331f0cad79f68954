-- ===== src/Worker/Technologies.antt =====
-- core/worker/analysis/application/merge_technologies.go: technologies found by one scan, merged into
-- those found by another. The index of the code gives, for a name and a category, the last entry of the
-- result that has them. The entries are taken as present: a nil one is not modelled.
use milton_prism.Prelude.{
  ℕ, String, Bool, ◌&&◌, Option, none, some, List, [], ◌∷◌, ◌++◌, ◌==◌, if◌then◌else◌, str_eq,
  is_empty,
}

-- `status` is the number of the enumeration; 0 is UNSPECIFIED.
pub record Technology : Type 0 where
  pub name : String
  pub detected_version : String
  pub latest_version : String
  pub status : ℕ
  pub category : String
  pub slug : String

abbrev pub same_key : Technology → Technology → Bool
same_key s t = str_eq s.name t.name && str_eq s.category t.category

abbrev pub or_text : String → String → String
or_text old new = if is_empty old then new else old

abbrev pub or_status : ℕ → ℕ → ℕ
or_status old new = if old == 0 then new else old

-- What `t` fills in the entry `e` of its key.
unfoldable pub fill : Technology → Technology → Technology
fill t e = record e {
  detected_version = or_text e.detected_version t.detected_version;
  latest_version = or_text e.latest_version t.latest_version;
  status = or_status e.status t.status;
}

-- The last entry with the key of `t`, filled; `none` where there is no such entry.
unfoldable pub fill_last : Technology → List Technology → Option (List Technology)
unfolding fill
fill_last t [] = none
fill_last t (e ∷ es) = elim (fill_last t es) [
  | some filled ↦ some (e ∷ filled)
  | none ↦ if same_key e t then some (fill t e ∷ es) else none
]

unfoldable pub merge_one : Technology → List Technology → List Technology
unfolding fill_last
merge_one t es = elim (fill_last t es) [ some filled ↦ filled | none ↦ es ++ (t ∷ []) ]

unfoldable pub merge_technologies : List Technology → List Technology → List Technology
unfolding merge_one
merge_technologies existing [] = existing
merge_technologies existing (t ∷ ts) = merge_technologies (merge_one t existing) ts
