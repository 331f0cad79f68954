-- ===== src/Generation/Free.antt =====
-- The schedule of the goroutines is of no consequence for the records.
use milton_prism.Prelude.{String, List, ◌≡◌, sym, ◌∙◌, inl, inr, subst}
use milton_prism.Migration.Publish.{GenerationPackage}
use milton_prism.Generation.Store.{Store, find_record}
use milton_prism.Generation.Service.{Effect, Interleaves}
use milton_prism.Generation.Run.{Job}
use milton_prism.Generation.Tasks.{others-AllSilent}
use milton_prism.Generation.Idempotence.{settled}
use milton_prism.Generation.Ready.{
  IsSound, named_or_not, settled-alone, settled-silent, job_specs, job_existing,
}

-- Whatever the schedule, the goroutines leave the same record for every service, where the services have
-- distinct names and the records unique keys.
pub settled-schedule :
    (job : Job) (pkg : GenerationPackage) (s : Store) (other : List (List Effect) → List Effect)
    → IsSound job pkg s
    → ((ts : List (List Effect)) → Interleaves ts (other ts))
    → (n : String)
    → find_record job.migration_id n (settled job pkg s).records
      ≡ find_record job.migration_id n (settled (record job { schedule = other }) pkg s).records
settled-schedule job pkg s other sound fair n =
    let job' = record job { schedule = other } in
    let sound' : IsSound job' pkg s = record {
      fair = fair;
      unique = sound.unique;
      distinct = sound.distinct;
    } in
    elim (named_or_not n (job_specs job pkg)) [
      | inl (i, spec, e, same) ↦
          subst
            (λ (x : String).
              find_record job.migration_id x (settled job pkg s).records
              ≡ find_record job.migration_id x (settled job' pkg s).records)
            same
            (settled-alone job pkg s sound i spec e
              ∙ sym (settled-alone job' pkg s sound' i spec e))
      | inr others ↦
          let quiet =
            others-AllSilent job.environment job.migration_id pkg.output_profile
              (job_existing job s) 0 n (job_specs job pkg) others in
          settled-silent job pkg s sound n quiet ∙ sym (settled-silent job' pkg s sound' n quiet)
    ]
