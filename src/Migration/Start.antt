-- ===== src/Migration/Start.antt =====
-- core/services/migration/application/service.go: StartMigration, by a new analysis or by adopting a
-- finished one.
use milton_prism.Prelude.{
  ℕ, String, Bool, true, false, not, ◌&&◌, Option, none, some, ◌==◌, if◌then◌else◌, is_empty,
}
use milton_prism.Migration.Domain.{
  pending, analyzing, designing, missing_identifier, invalid_state_transition,
  source_analysis_not_found, source_analysis_invalid, wrapped, Error, Migration, state_number,
}
use milton_prism.Migration.World.{
  Result, ok, err, M, pure, ◌>>=◌, ◌>>◌, guard, branch, if_wired, attempt, ask, from_error,
  record_call, run_analysis, enqueue_decompose,
}
use milton_prism.Migration.Ports.{Ports, AnalysisSummary, AnalysisState, completed}
use milton_prism.Migration.Store.{get_by_id, update_state, adopt_analysis}

-- `if s.repoSvc != nil { ProbeConnection … }`
unfoldable pub probe : Ports → ℕ → M Unit
probe p repository_id =
    if_wired p.repo_svc
      (λ client. do answer ← ask (λ t. client.probe_connection t repository_id); from_error answer)
      (pure tt)

-- The summary to adopt; nil when there is no analysis port. Any error reads "not found".
unfoldable pub found_or_raise : Result AnalysisSummary → M (Option AnalysisSummary)
found_or_raise r w =
    (elim r [ ok summary ↦ ok (some summary) | err e ↦ err source_analysis_not_found ], w)

unfoldable pub source_summary : Ports → ℕ → M (Option AnalysisSummary)
unfolding found_or_raise
source_summary p id =
    if_wired p.analysis
      (λ client. do answer ← ask (λ t. client.get_analysis_summary t id); found_or_raise answer)
      (pure none)

unfoldable pub is_completed : AnalysisState → Bool
is_completed completed = true
is_completed _ = false

-- Of the same repository, and completed.
unfoldable pub is_adoptable : ℕ → Option AnalysisSummary → Bool
unfolding is_completed
is_adoptable repository_id none = true
is_adoptable repository_id (some s) = (s.repository_id == repository_id) && is_completed s.state

unfoldable pub effective_branch : String → Option AnalysisSummary → String
effective_branch branch none = branch
effective_branch branch (some s) = if is_empty branch then s.source_branch else branch

-- A failed adoption puts the state back, best effort, and reports the failure.
unfoldable pub settle_adoption : Ports → ℕ → Result (Unit {0}) → M Unit
unfolding update_state
settle_adoption p id (ok u) w = (ok tt, w)
settle_adoption p id (err e) w =
    (err (wrapped "migration: adopt analysis failed" e), (update_state p id pending w).1)

-- Enqueueing is best effort: an error is logged.
unfoldable pub enqueue_decomposition : Ports → Migration → ℕ → String → M Unit
enqueue_decomposition p m summary_id branch =
    if_wired p.decompose_enqueuer
      (λ enqueue. do
        record_call (enqueue_decompose m.identifier summary_id m.repository_url branch)
        ask (λ t. enqueue t m.identifier summary_id m.repository_url branch)
        pure tt)
      (pure tt)

unfoldable pub adopted : Migration → ℕ → String → Migration
adopted m summary_id branch = record m {
  state = designing;
  analysis_summary_id = summary_id;
  analysis_reused = true;
  source_branch = if is_empty branch then m.source_branch else branch;
}

unfoldable pub start_with_reuse : Ports → Migration → M Migration
unfolding probe source_summary settle_adoption enqueue_decomposition adopted update_state
    adopt_analysis is_adoptable
start_with_reuse p m = do
  summary ← source_summary p m.source_analysis_summary_id
  guard (is_adoptable m.repository_id summary) source_analysis_invalid
  probe p m.repository_id
  let branch = effective_branch m.source_branch summary
  update_state p m.identifier analyzing
  outcome ← attempt (adopt_analysis p m.identifier m.source_analysis_summary_id branch)
  settle_adoption p m.identifier outcome
  enqueue_decomposition p m m.source_analysis_summary_id branch
  pure (adopted m m.source_analysis_summary_id branch)

unfoldable pub settle_dispatch : Ports → ℕ → Option Error → M Unit
unfolding update_state
settle_dispatch p id none w = (ok tt, w)
settle_dispatch p id (some e) w =
    (err (wrapped "migration: analysis dispatch failed" e), (update_state p id pending w).1)

unfoldable pub dispatch_analysis : Ports → Migration → M Unit
unfolding settle_dispatch
dispatch_analysis p m =
    if_wired p.analysis
      (λ client. do
        record_call (run_analysis m.repository_id m.identifier m.owner_user_id m.source_branch)
        answer ← ask (λ t.
            client.run_analysis t m.repository_id m.identifier m.owner_user_id m.source_branch)
        settle_dispatch p m.identifier answer)
      (pure tt)

unfoldable pub start_normal : Ports → Migration → M Migration
unfolding probe update_state dispatch_analysis
start_normal p m = do
  probe p m.repository_id
  update_state p m.identifier analyzing
  dispatch_analysis p m
  pure (record m { state = analyzing })

unfoldable pub start_migration : Ports → ℕ → M Migration
unfolding get_by_id start_with_reuse start_normal
start_migration p id = do
  guard (not (id == 0)) missing_identifier
  m ← get_by_id p id false
  guard (state_number m.state == state_number pending) invalid_state_transition
  branch (m.source_analysis_summary_id == 0) (start_normal p m) (start_with_reuse p m)
