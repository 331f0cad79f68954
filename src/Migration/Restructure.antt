-- ===== src/Migration/Restructure.antt =====
-- core/services/migration/application/service.go: the roadmap of a migration that cannot be split, and
-- what is added to it.
use milton_prism.Prelude.{
  ℕ, String, Bool, false, not, ◌||◌, Option, none, some, List, [], ◌∷◌, ◌==◌,
}
use milton_prism.Migration.Domain.{
  awaiting_approval, restructuring_ready, missing_identifier, invalid_state_transition, no_roadmap,
  no_blueprint_analysis, roadmap_unavailable, not_configured, wrapped, RestructurePlan, Assessment,
  Roadmap, Migration, get_no_service_boundaries, state_number,
}
use milton_prism.Migration.World.{
  Result, ok, err, M, pure, raise, ◌>>=◌, ◌>>◌, guard, branch, if_wired, map_error, ask,
  from_result,
}
use milton_prism.Migration.Ports.{Ports, AnalysisSummary}
use milton_prism.Migration.Store.{
  get_by_id, set_restructuring_roadmap, set_roadmap_enrichment, set_service_blueprint,
}
use milton_prism.Migration.Approval.{is_not_migrable}
use milton_prism.Migration.Roadmap.{Sorter}
use milton_prism.Migration.Plan.{assemble_roadmap, synthetic_assessment}

-- `roadmap == nil || len(roadmap.GetActionPlan()) == 0` is an error; otherwise the roadmap.
unfoldable pub usable : Option Roadmap → Option Roadmap
usable none = none
usable (some r) = elim r.action_plan [ [] ↦ none | _ ∷ _ ↦ some r ]

unfoldable pub usable_roadmap : Option Roadmap → M Roadmap
unfolding usable
usable_roadmap r = if_wired (usable r) pure (raise no_roadmap)

unfoldable pub run_enricher : Ports → Roadmap → M String
run_enricher p r =
    if_wired p.roadmap_enricher
      (λ enrich. do
        answer ← ask (λ t. enrich t r)
        map_error (wrapped "migration: enrich roadmap") (from_result answer))
      (raise (not_configured "migration: roadmap enricher not configured"))

unfoldable pub enrich_roadmap : Ports → ℕ → M Migration
unfolding get_by_id usable_roadmap run_enricher set_roadmap_enrichment
enrich_roadmap p id = do
  guard (not (id == 0)) missing_identifier
  m ← get_by_id p id false
  guard (state_number m.state == state_number restructuring_ready) invalid_state_transition
  r ← usable_roadmap m.roadmap
  text ← run_enricher p r
  map_error (wrapped "migration: persist enrichment") (set_roadmap_enrichment p id text)
  pure (record m { roadmap = some (record r { enrichment = some text }) })

unfoldable pub run_blueprint : Ports → ℕ → Roadmap → M String
run_blueprint p summary_id r =
    if_wired p.blueprint_generator
      (λ generate. do
        answer ← ask (λ t. generate t summary_id r)
        map_error (wrapped "migration: generate blueprint") (from_result answer))
      (raise (not_configured "migration: blueprint generator not configured"))

unfoldable pub generate_blueprint : Ports → ℕ → M Migration
unfolding get_by_id usable_roadmap run_blueprint set_service_blueprint
generate_blueprint p id = do
  guard (not (id == 0)) missing_identifier
  m ← get_by_id p id false
  guard (state_number m.state == state_number restructuring_ready) invalid_state_transition
  guard (not (m.analysis_summary_id == 0)) no_blueprint_analysis
  r ← usable_roadmap m.roadmap
  text ← run_blueprint p m.analysis_summary_id r
  map_error (wrapped "migration: persist blueprint") (set_service_blueprint p id text)
  pure (record m { roadmap = some (record r { blueprint = some text }) })

-- The verdict is NOT_MIGRABLE, or the plan has no service boundaries.
unfoldable pub is_blocked : Migration → Bool
unfolding is_not_migrable
is_blocked m = is_not_migrable m.assessment || get_no_service_boundaries m.plan

-- What a summary that could be read contributes.
unfoldable pub or_synthetic :
    Option Assessment → AnalysisSummary → Option RestructurePlan → Option Assessment
unfolding synthetic_assessment
or_synthetic none s plan = synthetic_assessment s.migrability_score plan
or_synthetic (some a) s plan = some a

unfoldable pub from_summary : Migration → Result AnalysisSummary → Option Assessment × List String
unfolding or_synthetic
from_summary m (ok s) = (or_synthetic m.assessment s m.plan, s.infra_modules)
from_summary m (err e) = (m.assessment, [])

unfoldable pub read_summary : Ports → Migration → M (Option Assessment × List String)
unfolding from_summary
read_summary p m = branch (m.analysis_summary_id == 0) (pure (m.assessment, [])) (
    if_wired p.analysis
      (λ client. do
        answer ← ask (λ t. client.get_analysis_summary t m.analysis_summary_id)
        pure (from_summary m answer))
      (pure (m.assessment, [])))

-- The marker that keeps a roadmap from being silently empty.
abbrev pub unavailable : Assessment
unavailable = record {
  verdict = "UNAVAILABLE";
  summary =
      "Diagnosis unavailable — the analysis did not produce a score; re-run analysis to populate this section";
  confidence = "";
  blockers = [];
  migrability_score = none;
  score_signals = [];
}

unfoldable pub or_unavailable : Option Assessment → Assessment
or_unavailable none = unavailable
or_unavailable (some a) = a

unfoldable pub generate_restructuring_roadmap : Sorter → Ports → ℕ → M Migration
unfolding get_by_id read_summary or_unavailable set_restructuring_roadmap is_blocked
generate_restructuring_roadmap s p id = do
  guard (not (id == 0)) missing_identifier
  m ← get_by_id p id false
  guard (state_number m.state == state_number awaiting_approval) invalid_state_transition
  guard (is_blocked m) roadmap_unavailable
  (assessment, infra_modules) ← read_summary p m
  let r = assemble_roadmap s (or_unavailable assessment) m.plan infra_modules
  map_error (wrapped "migration: persist roadmap") (set_restructuring_roadmap p id r)
  pure (record m { roadmap = some r; state = restructuring_ready })
