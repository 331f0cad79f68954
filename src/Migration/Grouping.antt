-- ===== src/Migration/Grouping.antt =====
-- GetGenerationArtifacts puts each generated file under its service.
use milton_prism.Prelude.{◌⊎◌, insert_by, sort_by, sort_strings, text_lt}
use mathlib.Core.List.{append-nil, append_assoc}
use milton_prism.Prelude.{
  ℕ, zero, suc, ◌+◌, ◌<◌, String, Bool, true, false, List, [], ◌∷◌, ◌++◌, ◌≡◌, refl, sym, ap, ◌∙◌,
  inl, inr, Bool-cases, if◌then◌else◌, str_eq, eq_iff, map, arith,
}
use milton_prism.Migration.Domain.{GenerationRecord}
use milton_prism.Migration.Ports.{GeneratedFile}
use milton_prism.Migration.Generated.{
  FileArtifact, ServiceFiles, ServiceGenerationArtifacts, file_artifact, add_service_file,
  by_service, names_of, files_for, service_artifacts, group_files,
}

abbrev one_if : Bool → ℕ
one_if b = if b then 1 else 0

-- How often the name stands in the list.
unfoldable count : String → List String → ℕ
count n [] = 0
count n (m ∷ ms) = one_if (str_eq m n) + count n ms

count-insert :
    (n x : String) (xs : List String)
    → count n (insert_by text_lt x xs) ≡ one_if (str_eq x n) + count n xs
unfolding count insert_by
count-insert n x [] = refl
count-insert n x (y ∷ ys) = elim (Bool-cases (text_lt y x)) [
  | inl before ↦ rw (before, count-insert n x ys) (omega arith)
  | inr after ↦ rw after refl
]

count-sort : (n : String) (xs : List String) → count n (sort_strings xs) ≡ count n xs
unfolding count sort_by
count-sort n [] = refl
count-sort n (x ∷ xs) =
    count-insert n x (sort_strings xs) ∙ ap (λ k. one_if (str_eq x n) + k) (count-sort n xs)

-- The files of a service among the generated ones, in their order.
unfoldable pub files_of : String → List GeneratedFile → List FileArtifact
unfolding file_artifact
files_of n [] = []
files_of n (f ∷ fs) =
    (if str_eq f.service_name n then file_artifact f ∷ [] else []) ++ files_of n fs

-- All files that an answer holds under the name, over all entries of that name.
unfoldable pub files_under : String → List ServiceGenerationArtifacts → List FileArtifact
files_under n [] = []
files_under n (s ∷ ss) = (if str_eq s.service_name n then s.files else []) ++ files_under n ss

apart : (a b n : String) → str_eq a b ≡ false → str_eq a n ≡ true → str_eq b n ≡ false
apart a b n new mine = elim (Bool-cases (str_eq b n)) [
  | inl h ↦
      let e : str_eq a b ≡ true = (eq_iff a b).1 ((eq_iff a n).0 mine ∙ sym ((eq_iff b n).0 h)) in
      cc
  | inr h ↦ h
]

files_for-add :
    (n : String) (f : GeneratedFile) (gs : List ServiceFiles)
    → files_for n (add_service_file f gs)
      ≡ files_for n gs ++ (if str_eq f.service_name n then file_artifact f ∷ [] else [])
unfolding files_for add_service_file
files_for-add n f [] = refl
files_for-add n f (g ∷ gs) = elim (Bool-cases (str_eq g.service_name f.service_name)) [
  | inl same ↦ elim (Bool-cases (str_eq g.service_name n)) [
    | inl mine ↦
        let q : str_eq f.service_name n ≡ true =
          rw (← (eq_iff g.service_name f.service_name).0 same) mine in
        rw (same, mine, q) refl
    | inr other ↦
        let q : str_eq f.service_name n ≡ false =
          rw (← (eq_iff g.service_name f.service_name).0 same) other in
        rw (same, other, q) (sym (append-nil (files_for n gs)))
  ]
  | inr new ↦ elim (Bool-cases (str_eq g.service_name n)) [
    | inl mine ↦
        let q : str_eq f.service_name n ≡ false = apart g.service_name f.service_name n new mine in
        rw (new, mine, q) (sym (append-nil g.files))
    | inr other ↦ rw (new, other) (files_for-add n f gs)
  ]
]

files_for-by_service :
    (n : String) (gs : List ServiceFiles) (fs : List GeneratedFile)
    → files_for n (by_service gs fs) ≡ files_for n gs ++ files_of n fs
unfolding by_service files_of
files_for-by_service n gs [] = sym (append-nil (files_for n gs))
files_for-by_service n gs (f ∷ fs) =
    files_for-by_service n (add_service_file f gs) fs
    ∙ ap (λ xs. xs ++ files_of n fs) (files_for-add n f gs)
    ∙ append_assoc (files_for n gs) (if str_eq f.service_name n then file_artifact f ∷ [] else [])
        (files_of n fs)

count-add_other :
    (n : String) (f : GeneratedFile) (gs : List ServiceFiles)
    → str_eq f.service_name n ≡ false
    → count n (names_of (add_service_file f gs)) ≡ count n (names_of gs)
unfolding count names_of add_service_file
count-add_other n f [] q = rw q refl
count-add_other n f (g ∷ gs) q = elim (Bool-cases (str_eq g.service_name f.service_name)) [
  | inl same ↦ rw same refl
  | inr new ↦ rw new (ap (λ k. one_if (str_eq g.service_name n) + k) (count-add_other n f gs q))
]

count-add :
    (n : String) (f : GeneratedFile) (gs : List ServiceFiles)
    → count n (names_of gs) < 2
    → count n (names_of (add_service_file f gs)) < 2
unfolding count names_of add_service_file
count-add n f [] h = elim (Bool-cases (str_eq f.service_name n)) [
  | inl mine ↦ rw mine (omega arith)
  | inr other ↦ rw other (omega arith)
]
count-add n f (g ∷ gs) h = elim (Bool-cases (str_eq g.service_name f.service_name)) [
  | inl same ↦ rw same h
  | inr new ↦ elim (Bool-cases (str_eq g.service_name n)) [
    | inl mine ↦
        let q = apart g.service_name f.service_name n new mine in
        rw (new, count-add_other n f gs q) h
    | inr other ↦
        let few = count-add n f gs (omega (arith, rw other at h)) in
        rw (new, other) (omega (arith, few))
  ]
]

count-by_service :
    (n : String) (gs : List ServiceFiles) (fs : List GeneratedFile)
    → count n (names_of gs) < 2
    → count n (names_of (by_service gs fs)) < 2
unfolding by_service
count-by_service n gs [] h = h
count-by_service n gs (f ∷ fs) h =
    count-by_service n (add_service_file f gs) fs (count-add n f gs h)

files_for-absent :
    (n : String) (gs : List ServiceFiles) → count n (names_of gs) ≡ 0 → files_for n gs ≡ []
unfolding files_for count names_of
files_for-absent n [] h = refl
files_for-absent n (g ∷ gs) h = elim (Bool-cases (str_eq g.service_name n)) [
  | inl mine ↦ absurd (omega (arith, rw mine at h))
  | inr other ↦ rw other (files_for-absent n gs (omega (arith, rw other at h)))
]

module _ (n : String) (records : List GenerationRecord) (gs : List ServiceFiles) where
  under-absent :
      (names : List String)
      → count n names ≡ 0
      → files_under n (map (service_artifacts records gs) names) ≡ []
  unfolding files_under count service_artifacts
  under-absent [] h = refl
  under-absent (x ∷ xs) h = elim (Bool-cases (str_eq x n)) [
    | inl mine ↦ absurd (omega (arith, rw mine at h))
    | inr other ↦ rw other (under-absent xs (omega (arith, rw other at h)))
  ]

  under-once :
      (names : List String)
      → count n names ≡ 1
      → files_under n (map (service_artifacts records gs) names) ≡ files_for n gs
  unfolding files_under count service_artifacts
  under-once [] h = absurd (omega (arith, h))
  under-once (x ∷ xs) h = elim (Bool-cases (str_eq x n)) [
    | inl mine ↦
        let none_left : count n xs ≡ 0 = omega (arith, rw mine at h) in
        rw (mine, under-absent xs none_left)
          (append-nil (files_for x gs) ∙ ap (λ m. files_for m gs) ((eq_iff x n).0 mine))
    | inr other ↦ rw other (under-once xs (omega (arith, rw other at h)))
  ]

-- Whatever is generated, the files that the answer holds under a name are the generated files of the
-- service of that name, each once and in their order, so that no file is lost, repeated or put under
-- another service.
pub group_files-groups :
    (records : List GenerationRecord) (files : List GeneratedFile) (n : String)
    → files_under n (group_files records files) ≡ files_of n files
unfolding group_files names_of count
group_files-groups records files n =
    let gs = by_service [] files in
    let names = sort_strings (names_of gs) in
    let few : count n (names_of gs) < 2 = count-by_service n [] files (omega arith) in
    let all : files_for n gs ≡ files_of n files = files_for-by_service n [] files in
    let same = count-sort n (names_of gs) in
    elim (none_or_one (count n (names_of gs)) few) [
      | inl none_held ↦
          under-absent n records gs names (same ∙ none_held)
          ∙ sym (files_for-absent n gs none_held)
          ∙ all
      | inr one_held ↦ under-once n records gs names (same ∙ one_held) ∙ all
    ]
  where
    none_or_one : (k : ℕ) → k < 2 → (k ≡ 0) ⊎ (k ≡ 1)
    none_or_one zero h = inl refl
    none_or_one (suc zero) h = inr refl
    none_or_one (suc (suc k)) h = absurd (omega (arith, h))
