-- ===== src/Generation/Completion.antt =====
-- What a job comes to: it returns no error for the failure of a service, and the migration is READY
-- where all its services pass.
use milton_prism.Prelude.{
  ℕ, true, false, Option, none, some, List, ◌≡◌, refl, sym, subst, inl, inr, Bool-cases, if_ind,
  if_false,
}
use milton_prism.Migration.Domain.{State, Error}
use milton_prism.Migration.World.{Doc, World, Result, ok, err, ◌>>=◌, map_error}
use milton_prism.Migration.Ports.{Ports}
use milton_prism.Migration.Healthy.{IsHealthy}
use milton_prism.Migration.Store.{command, run_update, update_matching, update_one}
use milton_prism.Migration.Publish.{GenerationPackage}
use milton_prism.Migration.Workers.{set_final_state, mark_ready, mark_generation_failed}
use milton_prism.Generation.Records.{ServiceRecord}
use milton_prism.Generation.Store.{Store, list_records}
use milton_prism.Generation.Package.{read_package, Source}
use milton_prism.Generation.Service.{perform_all}
use milton_prism.Generation.Run.{
  Job, Outcome, RunError, labelled, advance, conclude, run, run_package, any_failed, job_tasks,
  marking_ready, marking_failed, listing_final, listing_existing,
}
use milton_prism.Generation.Aggregator.{assemble_error_aggregator}

-- The migration is in the database and not deleted.
abbrev pub IsLive : ℕ → World → Type 0
IsLive id w = (d : Doc) × (w.docs id ≡ some d) × (d.deleted ≡ false)

dead_read :
    (source : Source) (id : ℕ) (d : Doc) (w : World) (pkg : GenerationPackage)
    → w.docs id ≡ some d
    → d.deleted ≡ true
    → read_package source id w ≡ some pkg
    → ⊥
unfolding read_package
dead_read source id d w pkg e dead h =
    if_ind (λ (o : Option GenerationPackage). o ≡ some pkg → ⊥) source.find_fault none none
      (λ q. cc q) (λ q. cc q) (rw (e, read_package, dead) at h)

read_of :
    (source : Source) (id : ℕ) (o : Option Doc) (w : World) (pkg : GenerationPackage)
    → w.docs id ≡ o
    → read_package source id w ≡ some pkg
    → IsLive id w
unfolding read_package
read_of source id none w pkg e h = absurd (cc (rw (e, read_package) at h))
read_of source id (some d) w pkg e h = elim (Bool-cases d.deleted) [
  | inr alive ↦ (d, e, alive)
  | inl dead ↦ absurd (dead_read source id d w pkg e dead h)
]

final_state_ok :
    (p : Ports) (id : ℕ) (st : State) (w : World)
    → IsHealthy p
    → IsLive id w
    → (set_final_state p id st w).0 ≡ ok tt
unfolding set_final_state
final_state_ok p id st w h (d, e, l) =
    rw (h w.clock, e, l, ◌>>=◌, map_error, update_one, command, run_update, update_matching) refl

labelled_ok :
    (label : Error → RunError) (s : Store) (x : Result (Unit {0}) × World)
    → x.0 ≡ ok tt
    → (labelled label s x).error ≡ none
labelled_ok label s (ok _, w) h = refl
labelled_ok label s (err e, w) h = cc

advance_ok :
    (p : Ports) (job : Job) (final : List ServiceRecord) (s : Store) (w : World)
    → IsHealthy p
    → IsLive job.migration_id w
    → (advance p job final s w).error ≡ none
unfolding advance mark_ready mark_generation_failed
advance_ok p job final s w h l =
    if_ind (λ (o : Outcome). o.error ≡ none) (any_failed final)
      (labelled marking_failed s (mark_generation_failed p job.migration_id w))
      (labelled marking_ready s (mark_ready p job.migration_id w))
      (labelled_ok marking_failed s (mark_generation_failed p job.migration_id w)
        (final_state_ok p job.migration_id State.failed w h l))
      (labelled_ok marking_ready s (mark_ready p job.migration_id w)
        (final_state_ok p job.migration_id State.ready w h l))

conclude_ok :
    (p : Ports) (job : Job) (pkg : GenerationPackage) (s : Store) (w : World)
    → IsHealthy p
    → IsLive job.migration_id w
    → job.final_fault ≡ false
    → (conclude p job pkg s w).error ≡ none
unfolding conclude
conclude_ok p job pkg s w h l f =
    let final = list_records job.migration_id s.records in
    let after =
      advance p job final
        (perform_all (assemble_error_aggregator job.toolbox job.migration_id pkg final s) s) w in
    subst (λ (o : Outcome). o.error ≡ none)
      (sym (
        if_false job.final_fault (record { error = some listing_final; store = s; world = w }) after
          f))
      (advance_ok p job final
        (perform_all (assemble_error_aggregator job.toolbox job.migration_id pkg final s) s) w h l)

-- A job fails only by its own reads and by the write of the state: where the package and the records
-- can be read and the database answers, it returns no error, whatever the services do, however they
-- are scheduled and whichever of their writes are lost.
pub run-succeeds :
    (p : Ports) (job : Job) (s : Store) (w : World) (pkg : GenerationPackage)
    → IsHealthy p
    → read_package job.source job.migration_id w ≡ some pkg
    → job.existing_fault ≡ false
    → job.final_fault ≡ false
    → (run p job s w).error ≡ none
unfolding run run_package
run-succeeds p job s w pkg h q a b =
    let live = read_of job.source job.migration_id (w.docs job.migration_id) w pkg refl q in
    let after = conclude p job pkg (perform_all (job.schedule (job_tasks job pkg s)) s) w in
    rw (q, run)
      (subst (λ (o : Outcome). o.error ≡ none)
        (sym (
          if_false job.existing_fault
            (record { error = some listing_existing; store = s; world = w }) after a))
        (conclude_ok p job pkg (perform_all (job.schedule (job_tasks job pkg s)) s) w h live b))
