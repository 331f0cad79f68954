-- ===== src/Migration/Conflicts.antt =====
-- PublishMigration's check of the generated files, against the rule it stands for: two files of one
-- path have one content.
use milton_prism.Prelude.{
  ◌++◌, String, Bool, true, false, not, ◌&&◌, List, [], ◌∷◌, ◌≡◌, refl, sym, ◌∙◌, ap, arith, inl,
  inr, Bool-cases, str_eq, eq_iff, All, if◌then◌else◌,
}
use milton_prism.Migration.Ports.{GeneratedFile}
use milton_prism.Migration.Publish.{
  PathEntry, merge_entry, add_file, index_files, conflicting, has_conflict, is_nil,
}

-- The rule, written without a table.
abbrev pub SamePathSameContent : GeneratedFile → GeneratedFile → Type 0
SamePathSameContent f g = f.path ≡ g.path → f.content ≡ g.content

abbrev pub Consistent : List GeneratedFile → Type 0
Consistent [] = Unit
Consistent (f ∷ fs) = All (SamePathSameContent f) fs × Consistent fs

unfoldable pub agree : GeneratedFile → GeneratedFile → Bool
agree f g = if str_eq f.path g.path then str_eq g.content f.content else true

unfoldable pub agree_all : GeneratedFile → List GeneratedFile → Bool
agree_all f [] = true
agree_all f (g ∷ gs) = agree f g && agree_all f gs

unfoldable pub consistent : List GeneratedFile → Bool
unfolding agree_all
consistent [] = true
consistent (f ∷ fs) = agree_all f fs && consistent fs

-- A file against the first entry of its path.
unfoldable pub fits : List PathEntry → GeneratedFile → Bool
fits [] g = true
fits (e ∷ es) g = if str_eq e.path g.path then str_eq g.content e.content else fits es g

unfoldable pub fits_all : List PathEntry → List GeneratedFile → Bool
fits_all es [] = true
fits_all es (g ∷ gs) = fits es g && fits_all es gs

unfoldable pub clean : List PathEntry → Bool
clean [] = true
clean (e ∷ es) = not (has_conflict e.services) && clean es

-- Every entry has been claimed by a service.
unfoldable pub claimed : List PathEntry → Bool
claimed [] = true
claimed (e ∷ es) = not (is_nil e.services) && claimed es

pub clean_lem : (es : List PathEntry) → is_nil (conflicting es) ≡ clean es
unfolding conflicting clean
clean_lem [] = refl
clean_lem (e ∷ es) = elim (Bool-cases (has_conflict e.services)) [
  | inl bad ↦ rw bad refl
  | inr good ↦ rw good (clean_lem es)
]

append_conflicts : (xs : List String) (s : String) → has_conflict (xs ++ (s ∷ [])) ≡ not (is_nil xs)
append_conflicts [] s = refl
append_conflicts (x ∷ []) s = refl
append_conflicts (x ∷ y ∷ xs) s = refl

append_claims : (xs : List String) (s : String) → is_nil (xs ++ (s ∷ [])) ≡ false
append_claims [] s = refl
append_claims (x ∷ xs) s = refl

str_eq_refl : (s : String) → str_eq s s ≡ true
str_eq_refl s = (eq_iff s s).1 refl

merge_clean :
    (f : GeneratedFile) (e : PathEntry)
    → is_nil e.services ≡ false
    → not (has_conflict (merge_entry f e).services)
      ≡ not (has_conflict e.services) && str_eq f.content e.content
merge_clean f e h = elim (Bool-cases (str_eq f.content e.content)) [
  | inl same ↦ rw same (ground arith)
  | inr other ↦ rw (other, append_conflicts e.services f.service_name, h) (ground arith)
]

clean-add :
    (es : List PathEntry) (f : GeneratedFile)
    → claimed es ≡ true
    → clean (add_file f es) ≡ clean es && fits es f
unfolding clean add_file fits claimed
clean-add [] f h = refl
clean-add (e ∷ es) f h = elim (Bool-cases (str_eq e.path f.path)) [
  | inl same ↦ rw (same, merge_clean f e (ground arith)) (ground arith)
  | inr other ↦ rw (other, clean-add es f (ground arith)) (ground arith)
]

merge_claimed :
    (f : GeneratedFile) (e : PathEntry)
    → is_nil e.services ≡ false
    → is_nil (merge_entry f e).services ≡ false
merge_claimed f e h = elim (Bool-cases (str_eq f.content e.content)) [
  | inl same ↦ rw same h
  | inr other ↦ rw other (append_claims e.services f.service_name)
]

claimed-add :
    (es : List PathEntry) (f : GeneratedFile) → claimed es ≡ true → claimed (add_file f es) ≡ true
unfolding claimed add_file
claimed-add [] f h = refl
claimed-add (e ∷ es) f h = elim (Bool-cases (str_eq e.path f.path)) [
  | inl same ↦ rw (same, merge_claimed f e (ground arith)) (ground arith)
  | inr other ↦ rw (other, claimed-add es f (ground arith)) (ground arith)
]

same_test : (s t u : String) → str_eq s t ≡ true → str_eq s u ≡ str_eq t u
same_test s t u h = ap (λ x. str_eq x u) ((eq_iff s t).0 h)

apart_test : (s t u : String) → str_eq s t ≡ false → str_eq s u ≡ true → str_eq t u ≡ false
apart_test s t u h k = elim (Bool-cases (str_eq t u)) [
  | inl same ↦
      let met : str_eq s t ≡ true = (eq_iff s t).1 ((eq_iff s u).0 k ∙ sym ((eq_iff t u).0 same)) in
      ground arith
  | inr other ↦ other
]

-- A file that fits adds to what later files must fit itself alone.
fits-add :
    (es : List PathEntry) (f g : GeneratedFile)
    → fits es f ≡ true
    → fits (add_file f es) g ≡ agree f g && fits es g
unfolding fits add_file agree
fits-add [] f g h = ground arith
fits-add (e ∷ es) f g h = elim (Bool-cases (str_eq e.path f.path)) [
  | inl same ↦
      let content : str_eq f.content e.content ≡ true = ground arith in
      let paths = same_test e.path f.path g.path same in
      let contents : str_eq g.content f.content ≡ str_eq g.content e.content =
        ap (str_eq g.content) ((eq_iff f.content e.content).0 content) in
      rw (same, content) (ground arith)
  | inr other ↦ elim (Bool-cases (str_eq e.path g.path)) [
    | inl mine ↦
        let apart = apart_test e.path f.path g.path other mine in
        rw (other, mine, apart) (ground arith)
    | inr next ↦ let rest = fits-add es f g (ground arith) in rw (other, next) rest
  ]
]

fits_all-add :
    (es : List PathEntry) (f : GeneratedFile) (gs : List GeneratedFile)
    → fits es f ≡ true
    → fits_all (add_file f es) gs ≡ agree_all f gs && fits_all es gs
unfolding fits_all agree_all
fits_all-add es f [] h = refl
fits_all-add es f (g ∷ gs) h =
    let head = fits-add es f g h in
    let rest = fits_all-add es f gs h in rw (head, rest) (ground arith)

-- Entries only grow in services, so that a conflict stays one.
clean-index_false :
    (es : List PathEntry) (fs : List GeneratedFile)
    → claimed es ≡ true
    → clean es ≡ false
    → clean (index_files es fs) ≡ false
unfolding index_files
clean-index_false es [] c h = h
clean-index_false es (f ∷ fs) c h =
    clean-index_false (add_file f es) fs (claimed-add es f c) (rw (clean-add es f c, h) refl)

pub clean-index :
    (es : List PathEntry) (fs : List GeneratedFile)
    → claimed es ≡ true
    → clean (index_files es fs) ≡ clean es && (fits_all es fs && consistent fs)
unfolding index_files fits_all consistent
clean-index es [] c = ground arith
clean-index es (f ∷ fs) c = elim (Bool-cases (fits es f)) [
  | inl fit ↦
      let rest = clean-index (add_file f es) fs (claimed-add es f c) in
      rw (rest, clean-add es f c, fits_all-add es f fs fit, fit) (ground arith)
  | inr unfit ↦
      let broken : clean (add_file f es) ≡ false = rw (clean-add es f c, unfit) (ground arith) in
      rw (clean-index_false (add_file f es) fs (claimed-add es f c) broken, unfit) (ground arith)
]
