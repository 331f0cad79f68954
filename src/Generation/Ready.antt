-- ===== src/Generation/Ready.antt =====
-- A job whose services pass leads to READY, and one with a failing service to FAILED.
use milton_prism.Prelude.{
  some_eq, ℕ, suc, String, true, false, Option, none, some, List, [], ◌∷◌, ◌≡◌, ◌≢◌, refl, sym, ◌∙◌,
  ap, subst, ◌⊎◌, inl, inr, Bool-cases, All, All-get, get_elem?, str_eq, eq_iff, arith,
  if◌then◌else◌,
}
use milton_prism.Migration.Domain.{State}
use milton_prism.Migration.World.{World}
use milton_prism.Migration.Ports.{Ports}
use milton_prism.Migration.Healthy.{IsHealthy}
use milton_prism.Migration.Publish.{ServiceSpec, GenerationPackage}
use milton_prism.Generation.Records.{Status, done, failed, status_eq, ServiceRecord}
use milton_prism.Generation.Store.{Store, find_record, list_records}
use milton_prism.Generation.Package.{read_package}
use milton_prism.Generation.Agent.{status_of}
use milton_prism.Generation.Service.{Effect, Interleaves, service_task, service_tasks, is_done}
use milton_prism.Generation.Run.{Job, run, any_failed, job_tasks, select_services}
use milton_prism.Generation.Keys.{IsUnique, find-any_failed, any_failed-find}
use milton_prism.Generation.Interleaving.{
  AllSilent, find-perform_all, perform_all-IsUnique, latest, latest-silent, latest-Sole,
}
use milton_prism.Generation.Tasks.{
  AreDistinct, others-AllSilent, service_tasks-Sole, done-AllSilent,
}
use milton_prism.Generation.Results.{HasStatus, final_answer, task-status, is_done-DoneAt}
use milton_prism.Generation.Idempotence.{run-Settles, settled}
use milton_prism.Generation.Decision.{StandsIn, run-decides}
use milton_prism.Generation.Completion.{run-succeeds}

-- A name is the name of a service of the list, at its index, or of none.
pub named_or_not :
    (n : String) (specs : List ServiceSpec)
    → ((i : ℕ) × (spec : ServiceSpec) × (get_elem? specs i ≡ some spec) × (spec.name ≡ n))
      ⊎ All (λ (t : ServiceSpec). t.name ≢ n) specs
named_or_not n [] = inr tt
named_or_not n (s ∷ ss) = elim (Bool-cases (str_eq s.name n)) [
  | inl same ↦ inl (0, s, refl, (eq_iff s.name n).0 same)
  | inr other ↦ elim (named_or_not n ss) [
    | inl (i, spec, e, q) ↦ inl (suc i, spec, e, q)
    | inr none_of ↦ inr ((λ e. cc (other, (eq_iff s.name n).1 e)), none_of)
  ]
]

-- The services that a job is to see to, and the records that it finds.
abbrev pub job_specs : Job → GenerationPackage → List ServiceSpec
job_specs job pkg = select_services job.service_filter pkg.services

abbrev pub job_existing : Job → Store → List ServiceRecord
job_existing job s = list_records job.migration_id s.records

-- The service at an index runs, and what comes of it is written.
pub record Runs (job : Job) (pkg : GenerationPackage) (s : Store) (i : ℕ) (spec : ServiceSpec)
    : Type 0 where
  pub selected : get_elem? (job_specs job pkg) i ≡ some spec
  pub not_done : is_done spec.name (job_existing job s) ≡ false
  pub complete : spec.incomplete ≡ false
  pub admitted : job.environment.refused_at_gate i ≡ false
  pub stored : job.environment.record_fault i 1 ≡ false

-- What a job is given: a schedule that interleaves the goroutines, unique keys and distinct names.
pub record IsSound (job : Job) (pkg : GenerationPackage) (s : Store) : Type 0 where
  pub fair : (ts : List (List Effect)) → Interleaves ts (job.schedule ts)
  pub unique : IsUnique s.records
  pub distinct : AreDistinct (job_specs job pkg)

done_failed :
    (o : Option ServiceRecord) (r : ServiceRecord)
    → HasStatus done o
    → o ≡ some r
    → status_eq r.status failed ≡ true
    → ⊥
done_failed none r h e f = elim h [ ]
done_failed (some x) r h e f =
    let same : x.status ≡ r.status =
      some_eq (λ (y : ServiceRecord). x.status ≡ y.status) x r refl e in
    absurd (cc (subst (λ (st : Status). status_eq st failed ≡ true) (sym same ∙ h) f))

module _ (job : Job) (pkg : GenerationPackage) (s : Store) (sound : IsSound job pkg s) where
  -- The record of a service behind its own task alone.
  pub settled-alone :
      (i : ℕ) (spec : ServiceSpec)
      → get_elem? (job_specs job pkg) i ≡ some spec
      → find_record job.migration_id spec.name (settled job pkg s).records
        ≡ latest job.migration_id spec.name
            (service_task job.environment i job.migration_id pkg.output_profile
              (job_existing job s)
              spec)
            (find_record job.migration_id spec.name s.records)
  unfolding job_tasks
  settled-alone i spec e =
      let m = job.migration_id in
      let before = find_record m spec.name s.records in
      let tasks = job_tasks job pkg s in
      find-perform_all m spec.name (job.schedule tasks) s
      ∙ (latest-Sole m spec.name before (sound.fair tasks) (
            service_tasks-Sole job.environment m pkg.output_profile (job_existing job s) 0 i
              (job_specs job pkg) spec sound.distinct e)
          ∙ ap
              (λ (j : ℕ).
                latest m spec.name
                  (service_task job.environment j m pkg.output_profile (job_existing job s) spec)
                  before)
              (omega arith))

  pub settled-silent :
      (n : String)
      → AllSilent job.migration_id n (
          service_tasks job.environment 0 job.migration_id pkg.output_profile
            (job_existing job s)
            (job_specs job pkg))
      → find_record job.migration_id n (settled job pkg s).records
        ≡ find_record job.migration_id n s.records
  unfolding job_tasks
  settled-silent n h =
      find-perform_all job.migration_id n (job.schedule (job_tasks job pkg s)) s
      ∙ latest-silent job.migration_id n (find_record job.migration_id n s.records)
          (sound.fair (job_tasks job pkg s)) h

  -- A service that runs ends with the status of what the agent answered.
  pub settled-status :
      (i : ℕ) (spec : ServiceSpec)
      → Runs job pkg s i spec
      → HasStatus
          (status_of (final_answer job.environment i pkg.output_profile spec))
          (find_record job.migration_id spec.name (settled job pkg s).records)
  settled-status i spec runs =
      subst
        (λ (o : Option ServiceRecord).
          HasStatus (status_of (final_answer job.environment i pkg.output_profile spec)) o)
        (sym (settled-alone i spec runs.selected))
        (task-status job.environment i job.migration_id pkg.output_profile spec (job_existing job s)
          (find_record job.migration_id spec.name s.records) runs.not_done runs.complete
          runs.admitted runs.stored)

  FailedIn : Option ServiceRecord → Type 0
  FailedIn none = ⊥
  FailedIn (some r) = status_eq r.status failed ≡ true

  failed-FailedIn :
      (st : Status) (o : Option ServiceRecord) → HasStatus st o → st ≡ failed → FailedIn o
  unfolding FailedIn
  failed-FailedIn st none h e = elim h [ ]
  failed-FailedIn st (some r) h e = rw (h, e) refl

  FailedIn-any_failed :
      (m : ℕ) (n : String) (rs : List ServiceRecord) (o : Option ServiceRecord)
      → find_record m n rs ≡ o
      → FailedIn o
      → any_failed (list_records m rs) ≡ true
  unfolding FailedIn
  FailedIn-any_failed m n rs none e h = elim h [ ]
  FailedIn-any_failed m n rs (some r) e h = find-any_failed m n rs r e h

  module _ (p : Ports) (w : World) (healthy : IsHealthy p)
      (read : read_package job.source job.migration_id w ≡ some pkg)
      (existing_read : job.existing_fault ≡ false) (final_read : job.final_fault ≡ false) where
    stands :
        (st : State)
        → (if any_failed (list_records job.migration_id (settled job pkg s).records)
            then State.failed
            else State.ready)
          ≡ st
        → ((run p job s w).error ≡ none) × StandsIn job.migration_id st (run p job s w).world
    stands st e =
        let nothing = run-succeeds p job s w pkg healthy read existing_read final_read in
        let stored = run-Settles p job s w pkg read existing_read in
        let (d, q, r) = run-decides p job s w nothing in
        (
          nothing,
          (
            d,
            q,
            r
                ∙ (ap
                      (λ rs.
                        if any_failed (list_records job.migration_id rs)
                        then State.failed
                        else State.ready)
                      stored.records
                    ∙ e),
          ),
        )

    -- If the agent's last answer for a service that runs is a failure and its record is written, the job
    -- leaves the migration in FAILED, whatever comes of the other services.
    pub run-fails :
        (i : ℕ) (spec : ServiceSpec)
        → Runs job pkg s i spec
        → status_of (final_answer job.environment i pkg.output_profile spec) ≡ failed
        → ((run p job s w).error ≡ none)
          × StandsIn job.migration_id State.failed (run p job s w).world
    run-fails i spec runs bad = stands State.failed (
        rw
          (FailedIn-any_failed job.migration_id spec.name (settled job pkg s).records
            (find_record job.migration_id spec.name (settled job pkg s).records) refl
            (failed-FailedIn (status_of (final_answer job.environment i pkg.output_profile spec))
              (find_record job.migration_id spec.name (settled job pkg s).records)
              (settled-status i spec runs) bad))
          refl)

    -- The records that are failed before the job belong to services that it is to see to.
    module _
        (clean : (n : String) (r : ServiceRecord)
          → find_record job.migration_id n s.records ≡ some r
          → status_eq r.status failed ≡ true
          → (i : ℕ) × (spec : ServiceSpec) × (get_elem? (job_specs job pkg) i ≡ some spec)
            × (spec.name ≡ n))
        (passes : (i : ℕ) (spec : ServiceSpec)
          → get_elem? (job_specs job pkg) i ≡ some spec
          → is_done spec.name (job_existing job s) ≡ false
          → Runs job pkg s i spec
            × (status_of (final_answer job.environment i pkg.output_profile spec) ≡ done)) where
      settled-done :
          (i : ℕ) (spec : ServiceSpec)
          → get_elem? (job_specs job pkg) i ≡ some spec
          → HasStatus done (find_record job.migration_id spec.name (settled job pkg s).records)
      settled-done i spec e = elim (Bool-cases (is_done spec.name (job_existing job s))) [
        | inl already ↦
            rw
              (settled-silent spec.name (
                done-AllSilent job.environment job.migration_id pkg.output_profile
                  (job_existing job s) 0 spec.name (job_specs job pkg) already))
              (is_done-DoneAt job.migration_id spec.name s.records sound.unique already)
        | inr open_yet ↦
            let (runs, good) = passes i spec e open_yet in
            subst
              (λ (st : Status).
                HasStatus st (find_record job.migration_id spec.name (settled job pkg s).records))
              good (settled-status i spec runs)
      ]

      settled-clean :
          (n : String) (r : ServiceRecord)
          → find_record job.migration_id n (settled job pkg s).records ≡ some r
          → status_eq r.status failed ≡ true
          → ⊥
      settled-clean n r e bad = elim (named_or_not n (job_specs job pkg)) [
        | inl (i, spec, q, same) ↦
            done_failed (find_record job.migration_id n (settled job pkg s).records) r
              (subst
                (λ (x : String).
                  HasStatus done (find_record job.migration_id x (settled job pkg s).records))
                same (settled-done i spec q))
              e bad
        | inr others ↦
            let (i, spec, q, same) =
              clean n r
                (sym (
                    settled-silent n (
                      others-AllSilent job.environment job.migration_id pkg.output_profile
                        (job_existing job s) 0 n (job_specs job pkg) others))
                  ∙ e)
                bad in
            All-get (λ (t : ServiceSpec). t.name ≢ n) (job_specs job pkg) i spec others q same
      ]

      -- If no other record of the migration is failed and the agent's last answer for every service that
      -- is not done is a pass, which is written, the job leaves the migration in READY.
      pub run-reaches_ready :
          ((run p job s w).error ≡ none)
          × StandsIn job.migration_id State.ready (run p job s w).world
      run-reaches_ready =
          stands State.ready
            (elim (Bool-cases
              (any_failed (list_records job.migration_id (settled job pkg s).records))) [
                | inr good ↦ rw good refl
                | inl bad ↦
                    let (n, r, e, f) =
                      any_failed-find job.migration_id (settled job pkg s).records
                        (perform_all-IsUnique (job.schedule (job_tasks job pkg s)) s sound.unique)
                        bad in
                    absurd (settled-clean n r e f)
              ])
