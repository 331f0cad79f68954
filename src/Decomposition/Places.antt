-- ===== src/Decomposition/Places.antt =====
-- What becomes of one cluster: its candidate, at the same place, behind stage 4 and behind stage 6.
use milton_prism.Prelude.{
  ℕ, zero, suc, String, false, Option, none, some, List, [], ◌∷◌, ◌≡◌, refl, ◌∙◌, ap, subst, inl,
  inr, Option-cases, any, get_elem?, some_eq, str_eq,
}
use milton_prism.Worker.Prefixes.{Assigned, allocate}
use milton_prism.Decomposition.Domain.{Edge, Cluster, ServiceCandidate}
use milton_prism.Decomposition.Characterize.{
  Texts, name_of, candidate, prepend, characterize_from, characterize,
}

-- No later element has the name of the one at an index.
abbrev pub IsLast : {A : Type 0} → (A → String) → List A → ℕ → Type 0
IsLast name [] i = ⊥
IsLast name (x ∷ xs) zero = any (λ y. str_eq (name y) (name x)) xs ≡ false
IsLast name (x ∷ xs) (suc i) = IsLast name xs i

-- A run of stage 4 without an error: each cluster is given a prefix and becomes a candidate.
pub data Characterized (texts : Texts) (edges : List Edge) (clusters : List Cluster)
    : List Cluster → Assigned → List ServiceCandidate → Assigned → Type 0 where
  all_done : {t : Assigned} → Characterized texts edges clusters [] t [] t
  one_more :
      {c : Cluster} {cs : List Cluster} {t u v : Assigned} {k : ServiceCandidate}
      {ks : List ServiceCandidate} (p : String)
      → allocate texts.format (name_of texts c) t ≡ some (p, u)
      → k ≡ candidate texts edges clusters c p
      → Characterized texts edges clusters cs u ks v
      → Characterized texts edges clusters (c ∷ cs) t (k ∷ ks) v

module _ (texts : Texts) (edges : List Edge) (clusters : List Cluster) where
  Gives : List Cluster → Assigned → Option (List ServiceCandidate) × Assigned → Type 0
  Gives cs t (none, v) = Unit
  Gives cs t (some ks, v) = Characterized texts edges clusters cs t ks v

  prepend-Gives :
      (c : Cluster) (cs : List Cluster) (t u : Assigned) (p : String)
      → allocate texts.format (name_of texts c) t ≡ some (p, u)
      → (r : Option (List ServiceCandidate) × Assigned) → Gives cs u r
      → Gives (c ∷ cs) t (prepend (candidate texts edges clusters c p) r)
  unfolding Gives
  prepend-Gives c cs t u p e (none, v) h = tt
  prepend-Gives c cs t u p e (some ks, v) h = one_more p e refl h

  characterize_from-Gives :
      (cs : List Cluster) (t : Assigned) → Gives cs t (characterize_from texts edges clusters cs t)
  unfolding Gives characterize_from
  characterize_from-Gives [] t = all_done
  characterize_from-Gives (c ∷ cs) t =
      elim (Option-cases (allocate texts.format (name_of texts c) t)) [
        | inl refused ↦ rw (refused, characterize_from) tt
        | inr ((p, u), e) ↦
            rw (e, characterize_from)
              (prepend-Gives c cs t u p e (characterize_from texts edges clusters cs u)
                (characterize_from-Gives cs u))
      ]

  pub characterize-Characterized :
      (t v : Assigned) (ks : List ServiceCandidate)
      → characterize texts edges clusters t ≡ (some ks, v)
      → Characterized texts edges clusters clusters t ks v
  unfolding Gives characterize
  characterize-Characterized t v ks e =
      subst (λ r. Gives clusters t r) e (characterize_from-Gives clusters t)

  names_kept :
      {cs : List Cluster} {t v : Assigned} {ks : List ServiceCandidate} (n : String)
      → Characterized texts edges clusters cs t ks v
      → any (λ k. str_eq k.name n) ks ≡ any (λ c. str_eq (name_of texts c) n) cs
  unfolding candidate
  names_kept n all_done = refl
  names_kept n (one_more {c} p e q rest) = rw (q, names_kept n rest) refl

  pub Characterized-IsLast :
      {cs : List Cluster} {t v : Assigned} {ks : List ServiceCandidate} (i : ℕ)
      → Characterized texts edges clusters cs t ks v
      → IsLast (name_of texts) cs i
      → IsLast (λ (k : ServiceCandidate). k.name) ks i
  unfolding candidate
  Characterized-IsLast i all_done h = h
  Characterized-IsLast zero (one_more {c} p e q rest) h =
      rw q (names_kept (name_of texts c) rest ∙ h)
  Characterized-IsLast (suc i) (one_more p e q rest) h = Characterized-IsLast i rest h

  -- The cluster at an index and its candidate.
  pub Characterized-get :
      {cs : List Cluster} {t v : Assigned} {ks : List ServiceCandidate} (i : ℕ) (c : Cluster)
      → Characterized texts edges clusters cs t ks v
      → get_elem? cs i ≡ some c
      → (p : String) × (get_elem? ks i ≡ some (candidate texts edges clusters c p))
  Characterized-get i c all_done e = cc
  Characterized-get zero c (one_more {c = c'} {k = k} p a q rest) e =
      some_eq (λ x. (o : String) × (some k ≡ some (candidate texts edges clusters x o))) c' c
        (p, ap (λ x. some x) q) e
  Characterized-get (suc i) c (one_more p a q rest) e = Characterized-get i c rest e
