-- ===== src/Generation/Decision.antt =====
-- The last decision of a job, for the migration.
use milton_prism.Generation.Idempotence.{aggregator-records}
use milton_prism.Prelude.{
  if_ind, ==_refl, ℕ, ◌+◌, false, Option, none, some, List, ◌≡◌, refl, sym, ap, inl, inr,
  Bool-cases, Option-cases, if◌then◌else◌,
}
use milton_prism.Migration.Domain.{State, ready, failed, Error}
use milton_prism.Migration.World.{map_error, ◌>>=◌, Doc, World, Result, ok, err}
use milton_prism.Migration.Ports.{Ports}
use milton_prism.Migration.Store.{command, run_update, update_matching, update_one, put_doc}
use milton_prism.Migration.Publish.{GenerationPackage}
use milton_prism.Migration.Workers.{set_final_state, mark_ready, mark_generation_failed}
use milton_prism.Generation.Records.{ServiceRecord}
use milton_prism.Generation.Store.{Store, list_records}
use milton_prism.Generation.Package.{read_package}
use milton_prism.Generation.Service.{perform_all}
use milton_prism.Generation.Run.{
  listing_final, job_tasks, listing_existing, marking_ready, marking_failed, Job, Outcome, run,
  run_package, conclude, advance, labelled, any_failed, RunError,
}
use milton_prism.Generation.Aggregator.{
  aggregator_effects, scan_existing_error_var_names, generated_names, assemble_error_aggregator,
}

-- The migration is stored in this state.
abbrev pub StandsIn : ℕ → State → World → Type 0
StandsIn id st w = (d : Doc) × (w.docs id ≡ some d) × (d.state ≡ st)

abbrev Wrote : ℕ → State → Result (Unit {0}) × World → Type 0
Wrote id st (ok _, w) = StandsIn id st w
Wrote id st (err _, w) = Unit

wrote_doc :
    (id : ℕ) (st : State) (w : World) (d : Doc)
    → StandsIn id st (put_doc w id (record d { state = st }))
unfolding put_doc
wrote_doc id st w d = (record d { state = st }, rw (==_refl id) refl, refl)

module _ (p : Ports) (id : ℕ) (st : State) (w : World) where
  final_found :
      (o : Option Doc)
      → w.docs id ≡ o
      → p.db_fault w.clock ≡ none
      → Wrote id st (set_final_state p id st w)
  unfolding set_final_state
  final_found none e h =
      rw (h, e, ◌>>=◌, map_error, update_one, command, run_update, update_matching) tt
  final_found (some d) e h = elim (Bool-cases d.deleted) [
    | inl gone ↦
        rw (h, e, gone, ◌>>=◌, map_error, update_one, command, run_update, update_matching) tt
    | inr there ↦
        rw (h, e, there, ◌>>=◌, map_error, update_one, command, run_update, update_matching)
          (wrote_doc id st (record w { clock = w.clock + 1 }) (record d { deleted = false }))
  ]

  -- A final state that is reported as written stands.
  set_final_state-Wrote : Wrote id st (set_final_state p id st w)
  unfolding set_final_state
  set_final_state-Wrote = elim (Option-cases (p.db_fault w.clock)) [
    | inl runs ↦ final_found (w.docs id) refl runs
    | inr (n, fails) ↦ rw (fails, ◌>>=◌, map_error, update_one, command) tt
  ]

-- The state that the decision gives: FAILED if a record of the migration is failed, else READY.
abbrev pub decided : ℕ → Store → State
decided id s = if any_failed (list_records id s.records) then failed else ready

-- What is true of an outcome without an error.
abbrev Decides : ℕ → Outcome → Type 0
Decides id o = o.error ≡ none → StandsIn id (decided id o.store) o.world

labelled-Decides :
    (id : ℕ) (label : Error → RunError) (s : Store) (x : Result (Unit {0}) × World)
    → Wrote id (decided id s) x
    → Decides id (labelled label s x)
labelled-Decides id label s (ok _, w) h e = h
labelled-Decides id label s (err _, w) h e = cc

advance-Decides :
    (p : Ports) (job : Job) (final : List ServiceRecord) (s : Store) (w : World)
    → final ≡ list_records job.migration_id s.records
    → Decides job.migration_id (advance p job final s w)
unfolding advance mark_ready mark_generation_failed
advance-Decides p job final s w q = elim (Bool-cases (any_failed final)) [
  | inl bad ↦
      rw (bad, advance)
        (labelled-Decides job.migration_id marking_failed s
          (set_final_state p job.migration_id failed w)
          (rw (← q) (rw bad (set_final_state-Wrote p job.migration_id failed w))))
  | inr good ↦
      rw (good, advance)
        (labelled-Decides job.migration_id marking_ready s
          (set_final_state p job.migration_id ready w)
          (rw (← q) (rw good (set_final_state-Wrote p job.migration_id ready w))))
]

conclude-Decides :
    (p : Ports) (job : Job) (pkg : GenerationPackage) (s : Store) (w : World)
    → Decides job.migration_id (conclude p job pkg s w)
unfolding conclude assemble_error_aggregator
conclude-Decides p job pkg s w =
    let final = list_records job.migration_id s.records in
    let names =
      generated_names job.toolbox s job.migration_id final pkg.services
        (scan_existing_error_var_names job.toolbox) in
    let effects = aggregator_effects job.toolbox job.migration_id names in
    if_ind (λ (o : Outcome). Decides job.migration_id o) job.final_fault
      (record { error = some listing_final; store = s; world = w })
      (advance p job final (perform_all effects s) w) (λ e. absurd (cc e))
      (advance-Decides p job final (perform_all effects s) w (
        ap (λ rs. list_records job.migration_id rs)
          (sym (aggregator-records job.toolbox job.migration_id names s).0)))

-- A job that returns no error leaves its migration in FAILED if some record of the migration is failed
-- in the end, and in READY if none is.
pub run-decides :
    (p : Ports) (job : Job) (s : Store) (w : World)
    → (run p job s w).error ≡ none
    → StandsIn job.migration_id
        (decided job.migration_id (run p job s w).store)
        (run p job s w).world
unfolding run run_package
run-decides p job s w = elim (Option-cases (read_package job.source job.migration_id w)) [
  | inl q ↦ rw (q, run) (λ e. absurd (cc e))
  | inr (pkg, q) ↦
      rw (q, run)
        (if_ind (λ (o : Outcome). Decides job.migration_id o) job.existing_fault
          (record { error = some listing_existing; store = s; world = w })
          (conclude p job pkg (perform_all (job.schedule (job_tasks job pkg s)) s) w)
          (λ e. absurd (cc e))
          (conclude-Decides p job pkg (perform_all (job.schedule (job_tasks job pkg s)) s) w))
]
