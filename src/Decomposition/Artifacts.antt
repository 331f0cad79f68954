-- ===== src/Decomposition/Artifacts.antt =====
-- core/worker/decomposition: the design artifacts of a plan (application/pipeline.go, buildArtifacts) and
-- the collection in which they are kept (infrastructure/adapters/mongo_artifact_store.go).
use milton_prism.Prelude.{
  ℕ, ◌+◌, String, Bool, true, ◌&&◌, Option, none, some, List, [], ◌∷◌, ◌==◌, if◌then◌else◌, str_eq,
}
use milton_prism.Migration.Domain.{ProposedService, OperationalCoupling, RestructurePlan}
use milton_prism.Migration.Ports.{ServiceArtifact}
use milton_prism.Decomposition.Domain.{ServiceCandidate, DerivedContract, DataOwnership}
use milton_prism.Decomposition.Plan.{keys_of}
use milton_prism.Decomposition.Boundary.{build_boundary_spec_yaml}

-- `byName[name]`: the last contract of that name.
unfoldable pub find_contract : String → List DerivedContract → Option DerivedContract
find_contract name [] = none
find_contract name (c ∷ cs) = elim (find_contract name cs) [
  | some d ↦ some d
  | none ↦ if str_eq c.service_name name then some c else none
]

-- `opByService[name]`: that of the last candidate of that name, whether or not it has any.
unfoldable pub find_couplings : String → List ServiceCandidate → Option (List OperationalCoupling)
find_couplings name [] = none
find_couplings name (k ∷ ks) = elim (find_couplings name ks) [
  | some ops ↦ some ops
  | none ↦ if str_eq k.name name then some k.operational_couplings else none
]

abbrev pub or_none : Option (List OperationalCoupling) → List OperationalCoupling
or_none none = []
or_none (some ops) = ops

-- A contract that is missing is the zero value, and the artifact is flagged.
unfoldable pub artifact_from : String → String → Option DerivedContract → ServiceArtifact
artifact_from name spec none = record {
  service_name = name;
  proto_content = "";
  boundary_spec = spec;
  incomplete = true;
  incomplete_reason = "no contract derived for this service";
}
artifact_from name spec (some c) = record {
  service_name = name;
  proto_content = c.proto_content;
  boundary_spec = spec;
  incomplete = c.incomplete;
  incomplete_reason = c.incomplete_reason;
}

unfoldable pub service_artifact :
    List DerivedContract → DataOwnership → List ServiceCandidate → ProposedService → ServiceArtifact
unfolding artifact_from find_contract find_couplings keys_of build_boundary_spec_yaml
service_artifact contracts ownership candidates svc =
    artifact_from svc.name
      (build_boundary_spec_yaml svc ownership.shared_database
        (keys_of svc.name ownership.cross_service_fks)
        (or_none (find_couplings svc.name candidates)))
      (find_contract svc.name contracts)

unfoldable pub artifacts_of :
    List DerivedContract
    → DataOwnership
    → List ServiceCandidate
    → List ProposedService
    → List ServiceArtifact
unfolding service_artifact
artifacts_of contracts ownership candidates [] = []
artifacts_of contracts ownership candidates (svc ∷ ss) =
    service_artifact contracts ownership candidates svc
    ∷ artifacts_of contracts ownership candidates ss

unfoldable pub build_artifacts :
    RestructurePlan
    → List DerivedContract
    → DataOwnership
    → List ServiceCandidate
    → List ServiceArtifact
unfolding artifacts_of
build_artifacts plan contracts ownership candidates =
    artifacts_of contracts ownership candidates plan.services

-- A document of `design_artifacts`.
pub record DesignArtifact : Type 0 where
  pub migration_id : ℕ
  pub artifact : ServiceArtifact

abbrev pub is_key : ℕ → String → DesignArtifact → Bool
is_key id name d = d.migration_id == id && str_eq d.artifact.service_name name

-- `UpdateOne` with `Upsert`, which sets every field.
unfoldable pub upsert_artifact : ℕ → ServiceArtifact → List DesignArtifact → List DesignArtifact
upsert_artifact id a [] = record { migration_id = id; artifact = a } ∷ []
upsert_artifact id a (d ∷ ds) =
    let rest = upsert_artifact id a ds in
    if is_key id a.service_name d then record { migration_id = id; artifact = a } ∷ ds else d ∷ rest

-- The n-th write may fail, which ends the loop; the writes before it stay.
unfoldable pub upsert_artifacts :
    (ℕ → Bool) → ℕ → ℕ → List ServiceArtifact → List DesignArtifact → List DesignArtifact
unfolding upsert_artifact
upsert_artifacts fault n id [] ds = ds
upsert_artifacts fault n id (a ∷ more) ds =
    let rest = upsert_artifacts fault (n + 1) id more (upsert_artifact id a ds) in
    if fault n then ds else rest

-- What a reader of the artifacts of a migration finds.
unfoldable pub read_artifacts : ℕ → List DesignArtifact → List ServiceArtifact
read_artifacts id [] = []
read_artifacts id (d ∷ ds) =
    let rest = read_artifacts id ds in if d.migration_id == id then d.artifact ∷ rest else rest
