-- ===== src/Migration/Approval.antt =====
-- core/services/migration/application/service.go: the migrability gate and what stands before the
-- generation of code.
use milton_prism.Prelude.{
  ℕ, String, Bool, false, not, ◌&&◌, Option, none, some, List, ◌==◌, if◌then◌else◌, str_eq,
}
use milton_prism.Migration.Domain.{
  State, awaiting_approval, generating, cancelled, missing_identifier, invalid_state_transition,
  no_service_boundaries, not_migrable_blocked, no_analysis_summary, not_configured, wrapped,
  Assessment, MigrabilityScore, Migration, get_no_service_boundaries, state_number,
}
use milton_prism.Migration.World.{
  Result, ok, err, M, pure, raise, ◌>>=◌, ◌>>◌, guard, branch, if_wired, map_error, ask,
  from_result, record_call, enqueue_generation,
}
use milton_prism.Migration.Ports.{Ports, AnalysisSummary}
use milton_prism.Migration.Store.{
  get_by_id, update_state, set_migrability_assessment, set_migrability_override,
}

abbrev pub verdict_not_migrable : String
verdict_not_migrable = "NOT_MIGRABLE"

unfoldable pub is_not_migrable : Option Assessment → Bool
is_not_migrable none = false
is_not_migrable (some a) = str_eq a.verdict verdict_not_migrable

-- True only when the verdict is NOT_MIGRABLE and there is no override.
unfoldable pub migrability_blocked : Migration → Bool
unfolding is_not_migrable
migrability_blocked m = is_not_migrable m.assessment && not m.override

abbrev pub next_state : Bool → State
next_state approved = if approved then generating else cancelled

-- Only an approval is dispatched; a failure to dispatch is logged.
unfoldable pub dispatch_generation : Ports → ℕ → Bool → List String → M Unit
dispatch_generation p id approved service_filter =
    branch approved
      (if_wired p.generation_enqueuer
        (λ enqueue. do
          record_call (enqueue_generation id service_filter)
          ask (λ t. enqueue t id service_filter)
          pure tt)
        (pure tt))
      (pure tt)

-- ApproveDesign behind its read: the guards on the record `m`, the write and the dispatch.
unfoldable pub approve_checked : Ports → ℕ → Bool → List String → Migration → M Migration
unfolding dispatch_generation update_state migrability_blocked
approve_checked p id approved service_filter m = do
  guard (state_number m.state == state_number awaiting_approval) invalid_state_transition
  guard (not (approved && get_no_service_boundaries m.plan)) no_service_boundaries
  guard (not (approved && migrability_blocked m)) not_migrable_blocked
  update_state p id (next_state approved)
  dispatch_generation p id approved service_filter
  pure (record m { state = next_state approved })

unfoldable pub approve_design : Ports → ℕ → Bool → List String → M Migration
unfolding get_by_id approve_checked
approve_design p id approved service_filter = do
  guard (not (id == 0)) missing_identifier
  m ← get_by_id p id false
  approve_checked p id approved service_filter m

-- The score of the analysis replaces the assessor's, if the summary can be read and has one.
unfoldable pub with_score : Option MigrabilityScore → Assessment → Assessment
with_score none a = a
with_score (some s) a = record a { migrability_score = some s.value; score_signals = s.signals }

unfoldable pub with_canonical_score : Result AnalysisSummary → Assessment → Assessment
unfolding with_score
with_canonical_score (ok s) a = with_score s.migrability_score a
with_canonical_score (err e) a = a

unfoldable pub canonical_score : Ports → ℕ → Assessment → M Assessment
unfolding with_canonical_score
canonical_score p summary_id a =
    if_wired p.analysis
      (λ client. do
        answer ← ask (λ t. client.get_analysis_summary t summary_id)
        pure (with_canonical_score answer a))
      (pure a)

unfoldable pub run_assessor : Ports → ℕ → String → M Assessment
run_assessor p summary_id language =
    if_wired p.migrability_assessor
      (λ assess. do
        answer ← ask (λ t. assess t summary_id language)
        map_error (wrapped "migration: assess migrability") (from_result answer))
      (raise (not_configured "migration: migrability assessor not configured"))

unfoldable pub assess_migrability : Ports → ℕ → String → M Migration
unfolding get_by_id run_assessor canonical_score set_migrability_assessment
assess_migrability p id language = do
  guard (not (id == 0)) missing_identifier
  m ← get_by_id p id false
  guard (not (m.analysis_summary_id == 0)) no_analysis_summary
  raw ← run_assessor p m.analysis_summary_id language
  assessment ← canonical_score p m.analysis_summary_id raw
  map_error (wrapped "migration: persist assessment") (set_migrability_assessment p id assessment)
  pure (record m { assessment = some assessment })

unfoldable pub override_migrability : Ports → ℕ → Bool → M Migration
unfolding get_by_id set_migrability_override
override_migrability p id override = do
  guard (not (id == 0)) missing_identifier
  m ← get_by_id p id false
  map_error (wrapped "migration: set override") (set_migrability_override p id override)
  pure (record m { override = override })
