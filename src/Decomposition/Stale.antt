-- ===== src/Decomposition/Stale.antt =====
-- Design artifacts of services that a later plan no longer has.
use milton_prism.Generation.Specs.{spec_same}
use milton_prism.Migration.World.{Doc}
use milton_prism.Generation.Package.{spec_from, is_python, package_of}
use milton_prism.Decomposition.Run.{State, Pipeline, store_artifacts}
use milton_prism.Prelude.{
  if◌then◌else◌, map, ℕ, ◌+◌, String, Bool, true, Option, none, some, List, [], ◌∷◌, ◌≡◌, ◌≢◌, refl,
  sym, ◌∙◌, ap, inl, inr, Bool-cases, and_cases, All, Any, str_eq, eq_iff, ◌==◌, ==_iff, if_ind,
}
use milton_prism.Migration.Domain.{get_services, RestructurePlan, ProposedService}
use milton_prism.Migration.Ports.{ServiceArtifact}
use milton_prism.Migration.Publish.{ServiceSpec, service_spec, prefix_by_name}
use milton_prism.Decomposition.Domain.{ServiceCandidate, DerivedContract, DataOwnership}
use milton_prism.Decomposition.Artifacts.{
  build_artifacts, artifact_from, artifacts_of, service_artifact, find_contract, DesignArtifact,
  is_key, upsert_artifact, upsert_artifacts, read_artifacts,
}

-- A document that holds the artifact for the migration.
abbrev pub IsDocument : ℕ → ServiceArtifact → DesignArtifact → Type 0
IsDocument id a x = (x.migration_id ≡ id) × (x.artifact ≡ a)

not_its_key :
    (id m : ℕ) (a b : ServiceArtifact) (x : DesignArtifact)
    → b.service_name ≢ a.service_name
    → IsDocument id a x
    → is_key m b.service_name x ≡ true
    → ⊥
not_its_key id m a b x other (_, q) h = other (
    sym (
      sym (ap (λ (c : ServiceArtifact). c.service_name) q)
      ∙ (eq_iff x.artifact.service_name b.service_name).0
          (and_cases (x.migration_id == m) (str_eq x.artifact.service_name b.service_name) h).1))

upsert_artifact-keeps :
    (id m : ℕ) (a b : ServiceArtifact) (ds : List DesignArtifact)
    → b.service_name ≢ a.service_name
    → Any (IsDocument id a) ds
    → Any (IsDocument id a) (upsert_artifact m b ds)
unfolding upsert_artifact
upsert_artifact-keeps id m a b [] other h = elim h [ ]
upsert_artifact-keeps id m a b (x ∷ ds) other h = elim (Bool-cases (is_key m b.service_name x)) [
  | inl its_key ↦ elim h [
    | inl here ↦ absurd (not_its_key id m a b x other here its_key)
    | inr later ↦ rw its_key (inr later)
  ]
  | inr other_key ↦ elim h [
    | inl here ↦ rw other_key (inl here)
    | inr later ↦ rw other_key (inr (upsert_artifact-keeps id m a b ds other later))
  ]
]

upsert_artifacts-keeps :
    (fault : ℕ → Bool) (n id m : ℕ) (a : ServiceArtifact) (bs : List ServiceArtifact)
    (ds : List DesignArtifact)
    → All (λ (b : ServiceArtifact). b.service_name ≢ a.service_name) bs
    → Any (IsDocument id a) ds
    → Any (IsDocument id a) (upsert_artifacts fault n m bs ds)
unfolding upsert_artifacts
upsert_artifacts-keeps fault n id m a [] ds others h = h
upsert_artifacts-keeps fault n id m a (b ∷ bs) ds others h =
    if_ind (λ (r : List DesignArtifact). Any (IsDocument id a) r) (fault n) ds
      (upsert_artifacts fault (n + 1) m bs (upsert_artifact m b ds)) h
      (upsert_artifacts-keeps fault (n + 1) id m a bs (upsert_artifact m b ds) others.1
        (upsert_artifact-keeps id m a b ds others.0 h))

-- No service of the plan has the name.
abbrev pub IsAbsent : String → List ProposedService → Type 0
IsAbsent name ss = All (λ (s : ProposedService). s.name ≢ name) ss

artifact_from-name :
    (name spec : String) (o : Option DerivedContract)
    → (artifact_from name spec o).service_name ≡ name
unfolding artifact_from
artifact_from-name name spec none = refl
artifact_from-name name spec (some c) = refl

artifacts_of-others :
    (name : String) (contracts : List DerivedContract) (ownership : DataOwnership)
    (candidates : List ServiceCandidate) (ss : List ProposedService)
    → IsAbsent name ss
    → All
        (λ (b : ServiceArtifact). b.service_name ≢ name)
        (artifacts_of contracts ownership candidates ss)
unfolding artifacts_of service_artifact
artifacts_of-others name contracts ownership candidates [] h = tt
artifacts_of-others name contracts ownership candidates (s ∷ ss) h = (
  λ e. h.0 (sym (artifact_from-name s.name _ (find_contract s.name contracts)) ∙ e),
  artifacts_of-others name contracts ownership candidates ss h.1,
)

read-document :
    (id : ℕ) (a : ServiceArtifact) (ds : List DesignArtifact)
    → Any (IsDocument id a) ds
    → Any (λ (b : ServiceArtifact). b ≡ a) (read_artifacts id ds)
unfolding read_artifacts
read-document id a [] h = elim h [ ]
read-document id a (x ∷ ds) (inl (m, q)) = rw ((==_iff x.migration_id id).1 m) (inl q)
read-document id a (x ∷ ds) (inr later) =
    if_ind (λ (r : List ServiceArtifact). Any (λ (b : ServiceArtifact). b ≡ a) r)
      (x.migration_id == id) _ _ (inr (read-document id a ds later)) (read-document id a ds later)

absent_prefix :
    (name : String) (ss : List ProposedService) → IsAbsent name ss → prefix_by_name name ss ≡ none
unfolding prefix_by_name
absent_prefix name [] h = refl
absent_prefix name (s ∷ ss) h = elim (Bool-cases (str_eq s.name name)) [
  | inl same ↦ absurd (h.0 ((eq_iff s.name name).0 same))
  | inr other ↦ rw (absent_prefix name ss h.1, other) refl
]

Any-image :
    {A B : Type 0} (f : A → B) (P : A → Type 0) (Q : B → Type 0) (xs : List A)
    → ((x : A) → P x → Q (f x))
    → Any P xs
    → Any Q (map f xs)
Any-image f P Q [] g h = h
Any-image f P Q (x ∷ xs) g (inl h) = inl (g x h)
Any-image f P Q (x ∷ xs) g (inr h) = inr (Any-image f P Q xs g h)

stored-kept :
    (p : Pipeline) (id : ℕ) (plan : RestructurePlan) (contracts : List DerivedContract)
    (ownership : DataOwnership) (candidates : List ServiceCandidate) (s : State)
    (a : ServiceArtifact)
    → Any (IsDocument id a) s.artifacts
    → IsAbsent a.service_name plan.services
    → Any (IsDocument id a) (store_artifacts p id plan contracts ownership candidates s).artifacts
unfolding store_artifacts build_artifacts
stored-kept p id plan contracts ownership candidates s a h absent =
    elim p.artifact_fault
      as (λ o.
        Any (IsDocument id a)
          (elim o as (λ _. State) [
            | none ↦ s
            | some fault ↦ record s {
              artifacts =
                  upsert_artifacts fault 0 id (build_artifacts plan contracts ownership candidates)
                    s.artifacts;
            }
          ]).artifacts) [
            | none ↦ h
            | some fault ↦
                upsert_artifacts-keeps fault 0 id id a
                  (artifacts_of contracts ownership candidates plan.services) s.artifacts
                  (artifacts_of-others a.service_name contracts ownership candidates plan.services
                    absent)
                  h
          ]

spec-stale :
    (plan : RestructurePlan) (o : Option RestructurePlan) (prompt : String) (a : ServiceArtifact)
    → IsAbsent a.service_name plan.services
    → o ≡ some plan
    → (b : ServiceArtifact) → b ≡ a
    → ((spec_from (get_services o) prompt b).name ≡ a.service_name)
      × ((spec_from (get_services o) prompt b).error_prefix ≡ "")
unfolding spec_from service_spec
spec-stale plan o prompt a absent e b q = (
  ap (λ (c : ServiceArtifact). c.service_name) q,
  ap (λ (x : ServiceSpec). x.error_prefix) (spec_same (get_services o) prompt b)
      ∙ rw (e, q, absent_prefix a.service_name plan.services absent) refl,
)

-- A design artifact of a migration whose service a later plan no longer has outlives the storing of the
-- artifacts of that plan, and is handed to the generation: the package read with that plan has a service of
-- its name, without an error prefix.
pub store_artifacts-keeps_stale :
    (p : Pipeline) (id : ℕ) (plan : RestructurePlan) (contracts : List DerivedContract)
    (ownership : DataOwnership) (candidates : List ServiceCandidate) (s : State)
    (a : ServiceArtifact) (d : Doc)
    → Any (IsDocument id a) s.artifacts
    → IsAbsent a.service_name plan.services
    → d.plan ≡ some plan
    → Any
        (λ (spec : ServiceSpec). (spec.name ≡ a.service_name) × (spec.error_prefix ≡ ""))
        (package_of id d (
          read_artifacts id
            (store_artifacts p id plan contracts ownership candidates s).artifacts)).services
unfolding package_of
store_artifacts-keeps_stale p id plan contracts ownership candidates s a d h absent e =
    let prompt =
      if is_python d.target
      then "docs/prism/milton-prism-python-service-generator-prompt.md"
      else "docs/prism/milton-prism-service-generator-prompt.md" in
    Any-image (spec_from (get_services d.plan) prompt) (λ (b : ServiceArtifact). b ≡ a)
      (λ (spec : ServiceSpec). (spec.name ≡ a.service_name) × (spec.error_prefix ≡ ""))
      (read_artifacts id (store_artifacts p id plan contracts ownership candidates s).artifacts)
      (λ b q. spec-stale plan d.plan prompt a absent e b q)
      (read-document id a (store_artifacts p id plan contracts ownership candidates s).artifacts
        (stored-kept p id plan contracts ownership candidates s a h absent))
