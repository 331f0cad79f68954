-- ===== src/Migration/Workers.antt =====
-- core/worker: what the workers of the analysis, the decomposition and the generation write to the
-- `migrations` collection (mongo_summary_writer.go, mongo_plan_writer.go, mongo_migration_state_updater.go).
-- The analysis summaries, which stand in a collection of their own, are not part of the world.
use milton_prism.Prelude.{ℕ, String, Bool, true, some, ◌==◌, List, [], ◌∷◌}
use milton_prism.Migration.Domain.{
  State, analyzing, designing, awaiting_approval, ready, failed, RestructurePlan, wrapped, internal,
}
use milton_prism.Migration.World.{Doc, World, M, pure, ◌>>=◌, ◌>>◌, guard, branch, map_error}
use milton_prism.Migration.Ports.{Ports}
use milton_prism.Migration.Store.{update_one, live, live_in}

-- `_, err := UpdateOne(…); return err`: whether a document matched is not looked at.
unfoldable pub update_if_any : Ports → (Doc → Bool) → (Doc → Doc) → ℕ → M Unit
unfolding update_one
update_if_any p filter set id = do update_one p filter set id; pure tt

-- MongoPlanWriter.WritePlan, after the advisory boundary specs.
unfoldable pub write_plan : Ports → ℕ → RestructurePlan → M Unit
unfolding update_one
write_plan p id plan = do
  matched ←
      map_error (wrapped "plan-writer: update migration")
        (update_one p live (λ d. record d { plan = some plan; state = awaiting_approval }) id)
  guard matched (wrapped "plan-writer: migration not found or already deleted" internal)

-- MongoPlanWriter.MarkFailed
unfoldable pub mark_design_failed : Ports → ℕ → String → M Unit
unfolding update_if_any
mark_design_failed p id reason =
    update_if_any p (live_in designing) (λ d. record d { state = failed; failure_reason = reason })
      id

-- MongoMigrationStateUpdater
unfoldable pub set_final_state : Ports → ℕ → State → M Unit
unfolding update_one
set_final_state p id s = do
  matched ← map_error (wrapped "state-updater") (update_one p live (λ d. record d { state = s }) id)
  guard matched (wrapped "state-updater: not found" internal)

unfoldable pub mark_ready : Ports → ℕ → M Unit
unfolding set_final_state
mark_ready p id = set_final_state p id ready

unfoldable pub mark_generation_failed : Ports → ℕ → M Unit
unfolding set_final_state
mark_generation_failed p id = set_final_state p id failed

-- MongoSummaryWriter.Write, once the summary has been advanced: a summary may be without a migration.
unfoldable pub advance_to_designing : Ports → ℕ → ℕ → M Unit
unfolding update_if_any
advance_to_designing p id summary_id = branch (id == 0) (pure tt) (
    update_if_any p (live_in analyzing)
      (λ d. record d { state = designing; analysis_summary_id = summary_id }) id)

-- MongoSummaryWriter.WriteReuse, before the link back from the summary.
unfoldable pub write_reuse : Ports → ℕ → ℕ → M Unit
unfolding update_if_any
write_reuse p id summary_id =
    update_if_any p (live_in analyzing)
      (λ d. record d {
        state = designing;
        analysis_summary_id = summary_id;
        analysis_reused = true;
      })
      id

-- MongoSummaryWriter.MarkFailed
unfoldable pub mark_analysis_failed : Ports → ℕ → String → M Unit
unfolding update_if_any
mark_analysis_failed p id reason =
    update_if_any p (live_in analyzing) (λ d. record d { state = failed; failure_reason = reason })
      id

-- What the analysis worker and the failing decomposition report.
pub data Report : Type 0 where
  analysed reused : (migration_id summary_id : ℕ) → Report
  analysis_failed design_failed : (migration_id : ℕ) → (reason : String) → Report

unfoldable pub deliver : Ports → Report → M Unit
unfolding advance_to_designing write_reuse mark_analysis_failed mark_design_failed
deliver p (analysed id summary_id) = advance_to_designing p id summary_id
deliver p (reused id summary_id) = write_reuse p id summary_id
deliver p (analysis_failed id reason) = mark_analysis_failed p id reason
deliver p (design_failed id reason) = mark_design_failed p id reason

unfoldable pub deliver_all : Ports → List Report → World → World
unfolding deliver
deliver_all p [] w = w
deliver_all p (r ∷ rs) w = deliver_all p rs (deliver p r w).1
