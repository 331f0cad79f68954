-- ===== src/Decomposition/Refinement.antt =====
-- The dependencies that a plan proposes are those of the abstract relation.
use milton_prism.Prelude.{
  sort_strings, ℕ, zero, suc, String, true, ◌||◌, some, List, [], ◌∷◌, ◌≡◌, ◌≢◌, ◌↔◌, refl, sym,
  ◌∙◌, ap, subst, inl, inr, any, any_iff, any-sort, Any-map, Any-elim, get_elem?, some_eq, map,
  str_eq, text_lt, or_cases, or_right, or_false,
}
use milton_prism.Migration.Domain.{CrossServiceFk, ProposedService}
use milton_prism.Worker.Prefixes.{Assigned}
use milton_prism.Decomposition.Domain.{
  Edge, Cluster, ClusteringResult, ServiceCandidate, DerivedContract, DataOwnership, is_in,
}
use milton_prism.Decomposition.Characterize.{Texts, name_of, candidate, data_deps, characterize}
use milton_prism.Decomposition.Ownership.{
  contract_keys, key_order, analyze_data_ownership, augment_data_deps, add_deps,
}
use milton_prism.Decomposition.Plan.{proposed_service, assemble_plan}
use milton_prism.Decomposition.Run.{plan_of, augmented_of}
use milton_prism.Decomposition.Members.{is_dep, is_in-data_deps}
use milton_prism.Decomposition.Places.{
  IsLast, characterize-Characterized, Characterized-IsLast, Characterized-get,
}
use milton_prism.Decomposition.Augmented.{
  adds, with_keys, with_keys-name, add_deps-get, sort_deps-get, is_in-with_keys,
}
use milton_prism.Decomposition.Dependence.{
  Imports, DependsOn, edge-Imports, Imports-edge, keys-Refers, Refers-keys,
}

-- The candidate of a cluster with all that the foreign keys add to it.
abbrev pub completed :
    Texts → List Edge → List Cluster → List CrossServiceFk → Cluster → String → ServiceCandidate
completed texts edges clusters keys c prefix =
    with_keys keys (candidate texts edges clusters c prefix)

module _ (texts : Texts) (edges : List Edge) (clusters : List Cluster)
    (contracts : List DerivedContract) (c : Cluster) (d : String) where
  deps-candidate :
      (prefix : String)
      → is_in d (candidate texts edges clusters c prefix).deps
        ≡ any (is_dep texts clusters (name_of texts c) d) edges
  unfolding candidate
  deps-candidate prefix =
      any-sort text_lt (λ n. str_eq n d) (data_deps texts clusters (name_of texts c) edges [])
      ∙ (is_in-data_deps texts clusters (name_of texts c) d edges []
          ∙ or_false (any (is_dep texts clusters (name_of texts c) d) edges))

  -- The test that the loops amount to.
  deps-completed :
      (candidates : List ServiceCandidate) (prefix : String)
      → is_in d
          (completed texts edges clusters
            (analyze_data_ownership candidates contracts).cross_service_fks
            c
            prefix).deps
        ≡ (any (is_dep texts clusters (name_of texts c) d) edges
            || any (adds (name_of texts c) d) (contract_keys contracts))
  unfolding candidate analyze_data_ownership
  deps-completed candidates prefix =
      is_in-with_keys d (analyze_data_ownership candidates contracts).cross_service_fks
        (candidate texts edges clusters c prefix)
      ∙ (ap
            (λ b.
              b
              || any (adds (name_of texts c) d)
                  (analyze_data_ownership candidates contracts).cross_service_fks)
            (deps-candidate prefix)
          ∙ ap (λ b. any (is_dep texts clusters (name_of texts c) d) edges || b)
              (any-sort (λ a b. text_lt (key_order a) (key_order b)) (adds (name_of texts c) d)
                (contract_keys contracts)))

  test_iff :
      ((any (is_dep texts clusters (name_of texts c) d) edges
          || any (adds (name_of texts c) d) (contract_keys contracts))
        ≡ true)
      ↔ DependsOn texts edges clusters contracts (name_of texts c) d
  test_iff =
      let a = name_of texts c in
      let p = is_dep texts clusters a d in
      let q = any (adds a d) (contract_keys contracts) in
      (
        λ h. elim (or_cases (any p edges) q h) [
          | inl k ↦
              let each = (any_iff p edges).0 k in
              record {
                is_service =
                    Any-elim (λ e. p e ≡ true) (d ≢ "") edges
                      (λ e r. (edge-Imports texts edges clusters contracts a d e r).0) each;
                is_other =
                    Any-elim (λ e. p e ≡ true) (d ≢ a) edges
                      (λ e r. (edge-Imports texts edges clusters contracts a d e r).1) each;
                because = inl (
                    Any-map (λ e. p e ≡ true) (Imports texts clusters a d) edges
                      (λ e r. (edge-Imports texts edges clusters contracts a d e r).2) each);
              }
          | inr k ↦
              let (n, o, r) = keys-Refers texts edges clusters contracts a d k in
              record { is_service = n; is_other = o; because = inr r }
        ],
        λ h. elim h.because [
          | inl r ↦
              rw
                ((any_iff p edges).1 (
                  Any-map (Imports texts clusters a d) (λ e. p e ≡ true) edges
                    (λ e i.
                      Imports-edge texts edges clusters contracts a d e h.is_service h.is_other i)
                    r))
                refl
          | inr r ↦
              or_right (any p edges) q
                (Refers-keys texts edges clusters contracts a d h.is_service h.is_other r)
        ],
      )

pub services-assemble :
    (decimal : ℕ → String) (ks : List ServiceCandidate) (o : DataOwnership) (cr : ClusteringResult)
    → (assemble_plan decimal ks o (some cr)).services
      ≡ map (proposed_service o.cross_service_fks) ks
unfolding assemble_plan
services-assemble decimal [] o cr = refl
services-assemble decimal (k ∷ ks) o cr = refl

get-map :
    {A B : Type 0} (f : A → B) (xs : List A) (i : ℕ) (x : A)
    → get_elem? xs i ≡ some x
    → get_elem? (map f xs) i ≡ some (f x)
get-map f [] i x e = cc
get-map f (y ∷ ys) zero x e = some_eq (λ z. some (f y) ≡ some (f z)) y x refl e
get-map f (y ∷ ys) (suc i) x e = get-map f ys i x e

module _ (texts : Texts) (edges : List Edge) (clusters : List Cluster)
    (contracts : List DerivedContract) (cr : ClusteringResult) (t v : Assigned)
    (candidates : List ServiceCandidate)
    (done : characterize texts edges clusters t ≡ (some candidates, v)) (i : ℕ) (c : Cluster)
    (at : get_elem? clusters i ≡ some c) (last : IsLast (name_of texts) clusters i) where
  abbrev keys : List CrossServiceFk
  keys = (analyze_data_ownership candidates contracts).cross_service_fks

  -- The candidate of the cluster in the augmented list.
  get-augmented :
      (prefix : String) × (get_elem? (augmented_of candidates contracts) i
        ≡ some (record (completed texts edges clusters keys c prefix) {
          deps = sort_strings (completed texts edges clusters keys c prefix).deps;
        }))
  unfolding augmented_of augment_data_deps
  get-augmented =
      let derived = characterize-Characterized texts edges clusters t v candidates done in
      let (prefix, e) = Characterized-get texts edges clusters i c derived at in
      (
        prefix,
        sort_deps-get (add_deps keys candidates) i (completed texts edges clusters keys c prefix) (
            add_deps-get keys candidates i (candidate texts edges clusters c prefix)
              (Characterized-IsLast texts edges clusters i derived last) e),
      )

  -- For each cluster after which no cluster has the same service name, the plan proposes at the same
  -- place a service of that name, and a name stands among the dependencies of that service exactly when
  -- the service depends on it: it is the name of another service, and a model of the service imports a
  -- module of it, or the contract of the service has a message with a foreign key to it.
  pub plan_of-Refines :
      (decimal : ℕ → String)
      → (s : ProposedService) × (get_elem? (plan_of decimal cr candidates contracts).services i
          ≡ some s)
        × (s.name ≡ name_of texts c)
        × ((d : String)
            → (is_in d s.inter_service_deps ≡ true)
              ↔ DependsOn texts edges clusters contracts (name_of texts c) d)
  unfolding plan_of proposed_service candidate
  plan_of-Refines decimal =
      let (prefix, e) = get-augmented in
      let k = completed texts edges clusters keys c prefix in
      let k' = record k { deps = sort_strings k.deps } in
      (
        proposed_service keys k',
        subst (λ ss. get_elem? ss i ≡ some (proposed_service keys k'))
            (sym (
              services-assemble decimal (augmented_of candidates contracts)
                (analyze_data_ownership candidates contracts) cr))
            (get-map (proposed_service keys) (augmented_of candidates contracts) i k' e),
        with_keys-name keys (candidate texts edges clusters c prefix),
        λ d.
            subst (λ b. (b ≡ true) ↔ DependsOn texts edges clusters contracts (name_of texts c) d)
              (sym (
                any-sort text_lt (λ n. str_eq n d) k.deps
                ∙ deps-completed texts edges clusters contracts c d candidates prefix))
              (test_iff texts edges clusters contracts c d),
      )
