-- ===== src/Migration/Plan.antt =====
-- core/services/migration/application/service.go: the action plan of a roadmap, its order and the
-- links between its steps.
use milton_prism.Prelude.{
  ℕ, ◌+◌, String, Option, none, some, List, [], ◌∷◌, ◌++◌, map, ◌==◌, if◌then◌else◌, str_eq, ltb,
}
use milton_prism.Migration.Domain.{
  RestructurePlan, ScoreSignal, MigrabilityScore, Assessment, ActionItem, StructuralProblem,
  Roadmap, get_boundaries_explanation,
}
use milton_prism.Migration.Roadmap.{Sorter, signal_to_action_item}

-- `type entry struct { item; signal }`
pub record Entry : Type 0 where
  pub item : ActionItem
  pub signal : String

-- One entry for each signal with a penalty that has an action.
abbrev pub entry_of : ScoreSignal → Option ActionItem → List Entry
entry_of sig none = []
entry_of sig (some item) =
    record { item = record item { impact = sig.penalty }; signal = sig.signal } ∷ []

unfoldable pub entries : List ScoreSignal → List String → List Entry
unfolding signal_to_action_item
entries [] infra_modules = []
entries (sig ∷ sigs) infra_modules =
    let rest = entries sigs infra_modules in
    if sig.penalty == 0
    then rest
    else entry_of sig (signal_to_action_item sig infra_modules) ++ rest

-- `entries[i].item.Order = i + 1`
unfoldable pub number_from : ℕ → List Entry → List Entry
number_from n [] = []
number_from n (e ∷ es) =
    record e { item = record e.item { order = n + 1 } } ∷ number_from (n + 1) es

-- `orderOf[signal]` after the numbering: the last entry of a signal wins, and a missing key is 0.
unfoldable pub order_of : String → List Entry → ℕ
order_of name [] = 0
order_of name (e ∷ es) =
    let later = order_of name es in
    if later == 0 then (if str_eq e.signal name then e.item.order else 0) else later

-- The second loop: a step waits for the one that it builds on.
unfoldable pub link : List Entry → Entry → Entry
unfolding order_of
link all e =
    if str_eq e.signal "cluster_count"
    then record e { item = record e.item { depends_on_step = order_of "domain_presence" all } }
    else if str_eq e.signal "routing_layout"
    then record e { item = record e.item { depends_on_step = order_of "cluster_count" all } }
    else e

abbrev pub impact_of : Entry → ℕ
impact_of e = e.item.impact

unfoldable pub plan_entries : Sorter → List ScoreSignal → List String → List Entry
unfolding entries number_from link
plan_entries s signals infra_modules =
    let numbered = number_from 0 (s.sort_desc Entry impact_of (entries signals infra_modules)) in
    map (link numbered) numbered

unfoldable pub build_action_plan : Sorter → List ScoreSignal → List String → List ActionItem
unfolding plan_entries
build_action_plan s signals infra_modules = map (λ e. e.item) (plan_entries s signals infra_modules)

unfoldable pub problems : List ScoreSignal → List StructuralProblem
problems [] = []
problems (sig ∷ sigs) =
    let rest = problems sigs in
    if ltb 0 sig.penalty
    then record { signal = sig.signal; penalty = sig.penalty; detail = sig.detail } ∷ rest
    else rest

-- The assessment is never nil where the service calls this.
unfoldable pub assemble_roadmap :
    Sorter → Assessment → Option RestructurePlan → List String → Roadmap
unfolding problems build_action_plan
assemble_roadmap s a plan infra_modules = record {
  diagnosis = some (record {
    verdict = a.verdict;
    summary = a.summary;
    migrability_score = a.migrability_score;
    confidence = a.confidence;
    blockers = a.blockers;
  });
  structural_problems = s.sort_desc StructuralProblem (λ q. q.penalty) (problems a.score_signals);
  action_plan = build_action_plan s a.score_signals infra_modules;
  boundaries_explanation = get_boundaries_explanation plan;
  enrichment = none;
  blueprint = none;
}

-- syntheticAssessmentFromScore: nil without signals.
unfoldable pub synthetic_assessment :
    Option MigrabilityScore → Option RestructurePlan → Option Assessment
synthetic_assessment none plan = none
synthetic_assessment (some ms) plan = elim ms.signals [
  | [] ↦ none
  | _ ∷ _ ↦ some (record {
    verdict = "NO_SERVICE_BOUNDARIES";
    summary = get_boundaries_explanation plan;
    confidence = "";
    blockers = [];
    migrability_score = some ms.value;
    score_signals = ms.signals;
  })
]
