-- ===== src/Worker/Merge.antt =====
-- MergeTechnologies loses nothing: the entries that were there keep their places and what they said.
use milton_prism.Prelude.{
  subst, false, Option, none, some, List, [], ◌∷◌, ◌++◌, ◌≡◌, refl, ◌∙◌, inl, inr, Bool-cases,
  Option-cases, ◌==◌, if◌then◌else◌, is_empty,
}
use milton_prism.Worker.Technologies.{
  Technology, same_key, fill, fill_last, merge_one, merge_technologies,
}

-- `e'` says what `e` says, and more only where `e` says nothing.
pub record Refines (e e' : Technology) : Type 0 where
  pub name : e'.name ≡ e.name
  pub category : e'.category ≡ e.category
  pub slug : e'.slug ≡ e.slug
  pub detected : is_empty e.detected_version ≡ false → e'.detected_version ≡ e.detected_version
  pub latest : is_empty e.latest_version ≡ false → e'.latest_version ≡ e.latest_version
  pub status : (e.status == 0) ≡ false → e'.status ≡ e.status

-- The entries refined one by one, with others after them.
abbrev pub Extends : List Technology → List Technology → Type 0
Extends [] ys = Unit
Extends (x ∷ xs) [] = ⊥
Extends (x ∷ xs) (y ∷ ys) = Refines x y × Extends xs ys

Refines-self : (e : Technology) → Refines e e
Refines-self e = record {
  name = refl;
  category = refl;
  slug = refl;
  detected = λ _. refl;
  latest = λ _. refl;
  status = λ _. refl;
}

Refines-chain : (a b c : Technology) → Refines a b → Refines b c → Refines a c
Refines-chain a b c p q = record {
  name = q.name ∙ p.name;
  category = q.category ∙ p.category;
  slug = q.slug ∙ p.slug;
  detected = λ h. q.detected (rw (p.detected h) h) ∙ p.detected h;
  latest = λ h. q.latest (rw (p.latest h) h) ∙ p.latest h;
  status = λ h. q.status (rw (p.status h) h) ∙ p.status h;
}

fill-Refines : (t e : Technology) → Refines e (fill t e)
unfolding fill
fill-Refines t e = record {
  name = refl;
  category = refl;
  slug = refl;
  detected = λ h. rw h refl;
  latest = λ h. rw h refl;
  status = λ h. rw h refl;
}

Extends-self : (xs : List Technology) → Extends xs xs
Extends-self [] = tt
Extends-self (x ∷ xs) = (Refines-self x, Extends-self xs)

Extends-chain : (xs ys zs : List Technology) → Extends xs ys → Extends ys zs → Extends xs zs
Extends-chain [] ys zs p q = tt
Extends-chain (x ∷ xs) [] zs p q = elim p [ ]
Extends-chain (x ∷ xs) (y ∷ ys) [] p q = elim q [ ]
Extends-chain (x ∷ xs) (y ∷ ys) (z ∷ zs) p q =
    (Refines-chain x y z p.0 q.0, Extends-chain xs ys zs p.1 q.1)

Extends-append : (xs ys : List Technology) → Extends xs (xs ++ ys)
Extends-append [] ys = tt
Extends-append (x ∷ xs) ys = (Refines-self x, Extends-append xs ys)

abbrev Filled : List Technology → Option (List Technology) → Type 0
Filled es none = Unit
Filled es (some ys) = Extends es ys

fill_head :
    (t e : Technology) (es : List Technology) (o : Option (List Technology))
    → Filled es o
    → Filled (e ∷ es) (elim o [
      | some filled ↦ some (e ∷ filled)
      | none ↦ if same_key e t then some (fill t e ∷ es) else none
    ])
fill_head t e es (some filled) h = (Refines-self e, h)
fill_head t e es none h = elim (Bool-cases (same_key e t)) [
  | inl mine ↦ rw mine (fill-Refines t e, Extends-self es)
  | inr other ↦ rw other tt
]

fill_last-Filled : (t : Technology) (es : List Technology) → Filled es (fill_last t es)
unfolding fill_last
fill_last-Filled t [] = tt
fill_last-Filled t (e ∷ es) = fill_head t e es (fill_last t es) (fill_last-Filled t es)

merge_one-Extends : (t : Technology) (es : List Technology) → Extends es (merge_one t es)
unfolding merge_one
merge_one-Extends t es = elim (Option-cases (fill_last t es)) [
  | inl new ↦ rw (new, merge_one) (Extends-append es (t ∷ []))
  | inr (filled, q) ↦ rw (q, merge_one) (subst (λ o. Filled es o) q (fill_last-Filled t es))
]

-- The result begins with the entries that were there, in their order: each keeps its name, its category
-- and its slug, and any version and status that it had.
pub merge_technologies-Extends :
    (existing incoming : List Technology) → Extends existing (merge_technologies existing incoming)
unfolding merge_technologies
merge_technologies-Extends existing [] = Extends-self existing
merge_technologies-Extends existing (t ∷ ts) =
    Extends-chain existing (merge_one t existing) (merge_technologies (merge_one t existing) ts)
      (merge_one-Extends t existing) (merge_technologies-Extends (merge_one t existing) ts)
