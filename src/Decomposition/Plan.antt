-- ===== src/Decomposition/Plan.antt =====
-- core/worker/decomposition/application/pipeline.go, stage 7: the plan that is proposed for a migration.
use milton_prism.Prelude.{
  ℕ, String, Bool, true, false, not, Option, none, some, List, [], ◌∷◌, map, length, if◌then◌else◌,
  str_eq, is_empty, concat, join,
}
use milton_prism.Migration.Domain.{
  CrossServiceFk, ProposedService, CandidateGrouping, RestructureRecommendation, RestructurePlan,
}
use milton_prism.Decomposition.Domain.{ServiceCandidate, DataOwnership, ClusteringResult}

abbrev pub low_confidence_of : Option ClusteringResult → Bool
low_confidence_of none = false
low_confidence_of (some cr) = cr.low_confidence

abbrev pub groupings_of : Option ClusteringResult → List CandidateGrouping
groupings_of none = []
groupings_of (some cr) = cr.candidate_groupings

abbrev pub recommendations_of : Option ClusteringResult → List RestructureRecommendation
recommendations_of none = []
recommendations_of (some cr) = cr.restructure_recs

abbrev pub no_service_boundaries_explanation : String
no_service_boundaries_explanation = concat "No service boundaries were found. " (
    concat "The codebase has no identifiable domain layer — all modules were classified " (
      concat "as infrastructure or utilities. This is typical of script-style code without " (
        concat "separation between domain logic and infrastructure. " (
          concat "Automatic microservices decomposition is not possible; the code would need "
            "to be restructured before a clean split can be made."))))

-- `fksByOwner[name]`
unfoldable pub keys_of : String → List CrossServiceFk → List CrossServiceFk
keys_of name [] = []
keys_of name (k ∷ ks) =
    let rest = keys_of name ks in if str_eq k.owner_service name then k ∷ rest else rest

unfoldable pub proposed_service : List CrossServiceFk → ServiceCandidate → ProposedService
unfolding keys_of
proposed_service keys k = record {
  name = k.name;
  error_prefix = k.error_prefix;
  owned_resources = k.owned_resources;
  inter_service_deps = k.deps;
  cross_service_fks = keys_of k.name keys;
}

unfoldable pub key_summary : CrossServiceFk → String
key_summary k = concat k.owner_service (
    concat "." (
      concat k.owner_message (
        concat "." (
          concat k.field (
            concat " → " (
              if not (is_empty k.ref_service)
              then concat k.ref_table (concat " (service: " (concat k.ref_service ")"))
              else k.ref_table))))))

-- `decimal` is the `%d` of `fmt.Sprintf`.
unfoldable pub rationale_of : (ℕ → String) → Bool → ℕ → List CrossServiceFk → String
unfolding key_summary
rationale_of decimal low services keys =
    let text = concat "Blueprint-biased Louvain community detection produced " (
      concat (decimal services) (
        concat " service boundaries. " (
          concat "Shared database declared: all services share one DB in v1 — " (
            concat "per-service data separation is deferred. " (
              concat (decimal (length keys)) (
                concat " cross-service FK(s) identified as consistency debt: "
                  (concat (join (map key_summary keys) "; ") "."))))))) in
    if low then concat "[LOW CONFIDENCE — human review recommended] " text else text

unfoldable pub assemble_plan :
    (ℕ → String) → List ServiceCandidate → DataOwnership → Option ClusteringResult → RestructurePlan
unfolding proposed_service rationale_of
assemble_plan decimal [] ownership cr = record {
  services = [];
  rationale = "Decomposition produced 0 service boundaries.";
  operational_couplings = [];
  is_low_confidence = low_confidence_of cr;
  no_service_boundaries = true;
  boundaries_explanation = no_service_boundaries_explanation;
  candidate_groupings = groupings_of cr;
  restructure_recommendations = recommendations_of cr;
}
assemble_plan decimal (k ∷ ks) ownership cr = record {
  services = map (proposed_service ownership.cross_service_fks) (k ∷ ks);
  rationale =
      rationale_of decimal (low_confidence_of cr) (length (k ∷ ks)) ownership.cross_service_fks;
  operational_couplings = ownership.operational_couplings;
  is_low_confidence = low_confidence_of cr;
  no_service_boundaries = false;
  boundaries_explanation = "";
  candidate_groupings = groupings_of cr;
  restructure_recommendations = recommendations_of cr;
}
