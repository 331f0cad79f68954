-- ===== src/Decomposition/Codes.antt =====
-- The error prefixes of a plan.
use milton_prism.Prelude.{
  ℕ, String, some, List, [], ◌∷◌, ◌≡◌, sym, ◌∙◌, ap, subst, inl, inr, Bool-cases, All, All-get,
  get_elem?, map, str_eq, is_empty,
}
use mathlib.Core.Option.{some-injective}
use milton_prism.Migration.Domain.{CrossServiceFk, ProposedService}
use milton_prism.Worker.Prefixes.{Assigned, owner_of}
use milton_prism.Worker.Prefix.{allocate-owned, allocate-kept}
use milton_prism.Decomposition.Domain.{
  Edge, Cluster, ClusteringResult, ServiceCandidate, DerivedContract,
}
use milton_prism.Decomposition.Characterize.{Texts, name_of, candidate, characterize}
use milton_prism.Decomposition.Ownership.{
  is_named, add_dep, add_deps, sort_deps, augment_data_deps, analyze_data_ownership,
}
use milton_prism.Decomposition.Plan.{proposed_service}
use milton_prism.Decomposition.Run.{plan_of, augmented_of}
use milton_prism.Decomposition.Places.{
  Characterized, all_done, one_more, characterize-Characterized,
}
use milton_prism.Decomposition.Refinement.{services-assemble}

-- The prefix of a candidate is claimed in its name.
abbrev Owns : Assigned → ServiceCandidate → Type 0
Owns v k = owner_of v k.error_prefix ≡ some k.name

module _ (texts : Texts) (edges : List Edge) (clusters : List Cluster) where
  claims_kept :
      {cs : List Cluster} {t v : Assigned} {ks : List ServiceCandidate} (p o : String)
      → Characterized texts edges clusters cs t ks v
      → owner_of t p ≡ some o
      → owner_of v p ≡ some o
  claims_kept p o all_done h = h
  claims_kept p o (one_more {c} {t} {u} q e same rest) h =
      claims_kept p o rest (allocate-kept texts.format (name_of texts c) t u q p o e h)

  Characterized-Owns :
      {cs : List Cluster} {t v : Assigned} {ks : List ServiceCandidate}
      → Characterized texts edges clusters cs t ks v
      → All (Owns v) ks
  unfolding candidate
  Characterized-Owns all_done = tt
  Characterized-Owns {v} (one_more {c} {t} {u} q e same rest) = (
    subst (Owns v) (sym same) (
        claims_kept q (name_of texts c) rest
          (allocate-owned texts.format (name_of texts c) t u q e)),
    Characterized-Owns rest,
  )

module _ (v : Assigned) where
  add_dep-Owns :
      (owner d : String) (ks : List ServiceCandidate)
      → All (Owns v) ks
      → All (Owns v) (add_dep owner d ks)
  unfolding add_dep
  add_dep-Owns owner d [] h = tt
  add_dep-Owns owner d (k ∷ ks) h = elim (Bool-cases (is_named owner ks)) [
    | inl later ↦ rw later (h.0, add_dep-Owns owner d ks h.1)
    | inr none_later ↦ elim (Bool-cases (str_eq k.name owner)) [
      | inl same ↦ rw (none_later, same) h
      | inr other ↦ rw (none_later, other) h
    ]
  ]

  add_deps-Owns :
      (fks : List CrossServiceFk) (ks : List ServiceCandidate)
      → All (Owns v) ks
      → All (Owns v) (add_deps fks ks)
  unfolding add_deps
  add_deps-Owns [] ks h = h
  add_deps-Owns (fk ∷ fks) ks h = elim (Bool-cases (is_empty fk.ref_service)) [
    | inl unresolved ↦ rw unresolved (add_deps-Owns fks ks h)
    | inr resolved ↦ rw resolved (
        add_deps-Owns fks (add_dep fk.owner_service fk.ref_service ks)
          (add_dep-Owns fk.owner_service fk.ref_service ks h))
  ]

  sort_deps-Owns : (ks : List ServiceCandidate) → All (Owns v) ks → All (Owns v) (sort_deps ks)
  unfolding sort_deps
  sort_deps-Owns [] h = tt
  sort_deps-Owns (k ∷ ks) h = (h.0, sort_deps-Owns ks h.1)

  abbrev IsClaimed : ProposedService → Type 0
  IsClaimed s = owner_of v s.error_prefix ≡ some s.name

  services-IsClaimed :
      (keys : List CrossServiceFk) (ks : List ServiceCandidate)
      → All (Owns v) ks
      → All IsClaimed (map (proposed_service keys) ks)
  unfolding proposed_service
  services-IsClaimed keys [] h = tt
  services-IsClaimed keys (k ∷ ks) h = (h.0, services-IsClaimed keys ks h.1)

-- Two services of a plan with the same error prefix have the same name, whatever prefixes the allocator
-- had given before.
pub plan_of-IsUnique :
    (texts : Texts) (edges : List Edge) (clusters : List Cluster) (contracts : List DerivedContract)
    (cr : ClusteringResult) (t v : Assigned) (candidates : List ServiceCandidate)
    (decimal : ℕ → String) (i j : ℕ) (a b : ProposedService)
    → characterize texts edges clusters t ≡ (some candidates, v)
    → get_elem? (plan_of decimal cr candidates contracts).services i ≡ some a
    → get_elem? (plan_of decimal cr candidates contracts).services j ≡ some b
    → a.error_prefix ≡ b.error_prefix
    → a.name ≡ b.name
unfolding plan_of augmented_of augment_data_deps
plan_of-IsUnique texts edges clusters contracts cr t v candidates decimal i j a b done p q same =
    let o = analyze_data_ownership candidates contracts in
    let ks = add_deps o.cross_service_fks candidates in
    let plan = plan_of decimal cr candidates contracts in
    let claimed : All (IsClaimed v) plan.services =
      subst (All (IsClaimed v)) (sym (services-assemble decimal (sort_deps ks) o cr)) (
        services-IsClaimed v o.cross_service_fks (sort_deps ks) (
          sort_deps-Owns v ks (
            add_deps-Owns v o.cross_service_fks candidates (
              Characterized-Owns texts edges clusters
                (characterize-Characterized texts edges clusters t v candidates done))))) in
    some-injective a.name b.name (
      sym (All-get (IsClaimed v) plan.services i a claimed p)
      ∙ (ap (owner_of v) same ∙ All-get (IsClaimed v) plan.services j b claimed q))
