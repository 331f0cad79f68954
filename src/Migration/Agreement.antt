-- ===== src/Migration/Agreement.antt =====
-- The check of the generated files passes exactly when the files agree.
use milton_prism.Migration.Conflicts.{
  clean-index, clean_lem, clean, Consistent, SamePathSameContent, fits, claimed, consistent,
  agree_all, agree, fits_all,
}
use milton_prism.Migration.Domain.{Error}
use milton_prism.Prelude.{
  String, Bool, true, false, ◌&&◌, List, [], ◌∷◌, ◌≡◌, refl, sym, ◌∙◌, ap, ◌↔◌, arith, inl, inr,
  Bool-cases, str_eq, eq_iff, All,
}
use milton_prism.Migration.Ports.{GeneratedFile}
use milton_prism.Migration.World.{guard, Result, World, ok, err}
use milton_prism.Migration.Publish.{index_files, conflicting, is_nil, detect_path_conflicts}

fits_all_nil : (fs : List GeneratedFile) → fits_all [] fs ≡ true
unfolding fits_all fits
fits_all_nil [] = refl
fits_all_nil (f ∷ fs) = fits_all_nil fs

agree_iff : (f g : GeneratedFile) → (agree f g ≡ true) ↔ SamePathSameContent f g
unfolding agree
agree_iff f g = elim (Bool-cases (str_eq f.path g.path)) [
  | inl same ↦ (
    λ h _. sym ((eq_iff g.content f.content).0 (ground arith)),
    λ h. rw same ((eq_iff g.content f.content).1 (sym (h ((eq_iff f.path g.path).0 same)))),
  )
  | inr other ↦ (λ _ p. let met = (eq_iff f.path g.path).1 p in ground arith, λ _. rw other refl)
]

agree_all_iff :
    (f : GeneratedFile) (gs : List GeneratedFile)
    → (agree_all f gs ≡ true) ↔ All (SamePathSameContent f) gs
unfolding agree_all
agree_all_iff f [] = (λ _. tt, λ _. refl)
agree_all_iff f (g ∷ gs) = (
  λ h. ((agree_iff f g).0 (ground arith), (agree_all_iff f gs).0 (ground arith)),
  λ h. rw ((agree_iff f g).1 h.0, (agree_all_iff f gs).1 h.1) refl,
)

consistent_iff : (fs : List GeneratedFile) → (consistent fs ≡ true) ↔ Consistent fs
unfolding consistent
consistent_iff [] = (λ _. tt, λ _. refl)
consistent_iff (f ∷ fs) = (
  λ h. ((agree_all_iff f fs).0 (ground arith), (consistent_iff fs).0 (ground arith)),
  λ h. rw ((agree_all_iff f fs).1 h.0, (consistent_iff fs).1 h.1) refl,
)

unfoldable succeeds : Result (Unit {0}) × World → Bool
succeeds (ok _, w) = true
succeeds (err _, w) = false

guard_passes : (b : Bool) (e : Error) (w : World) → guard b e w ≡ (ok tt, w) → b ≡ true
unfolding succeeds
guard_passes true e w h = refl
guard_passes false e w h = ap succeeds h

-- The check lets a list of files pass, without a call and without touching the world, exactly when
-- any two of its files that share their path share their content.
pub detect_path_conflicts_iff :
    (sort_strings : List String → List String) (fs : List GeneratedFile) (w : World)
    → (detect_path_conflicts sort_strings fs w ≡ (ok tt, w)) ↔ Consistent fs
unfolding detect_path_conflicts claimed clean
detect_path_conflicts_iff sort_strings fs w =
    let verdict : is_nil (conflicting (index_files [] fs)) ≡ consistent fs =
      clean_lem (index_files [] fs)
      ∙ clean-index [] fs (ground arith)
      ∙ ap (λ b. b && consistent fs) (fits_all_nil fs) in
    (
      λ h.
          (consistent_iff fs).0
            (sym verdict ∙ guard_passes (is_nil (conflicting (index_files [] fs))) _ w h),
      λ c. rw (verdict, (consistent_iff fs).1 c) refl,
    )
