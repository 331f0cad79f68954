-- ===== src/Generation/Run.antt =====
-- core/worker/generation/application: one job of the generation worker, from the reading of the package
-- to the state of the migration, with the shared error file that it assembles.
use milton_prism.Prelude.{
  ℕ, String, Bool, true, false, Option, none, some, List, [], ◌∷◌, if◌then◌else◌,
}
use milton_prism.Migration.Domain.{Error}
use milton_prism.Migration.World.{World, Result, ok, err}
use milton_prism.Migration.Ports.{Ports}
use milton_prism.Migration.Publish.{ServiceSpec, GenerationPackage}
use milton_prism.Migration.Workers.{mark_ready, mark_generation_failed}
use milton_prism.Generation.Records.{failed, status_eq, ServiceRecord}
use milton_prism.Generation.Store.{Store, list_records}
use milton_prism.Generation.Aggregator.{Toolbox, assemble_error_aggregator, is_among}
use milton_prism.Generation.Package.{Source, read_package}
use milton_prism.Generation.Service.{Effect, Environment, perform_all, service_tasks}

unfoldable pub keep_named : List String → List ServiceSpec → List ServiceSpec
unfolding is_among
keep_named names [] = []
keep_named names (s ∷ ss) =
    let rest = keep_named names ss in if is_among s.name names then s ∷ rest else rest

-- No filter selects every service.
unfoldable pub select_services : List String → List ServiceSpec → List ServiceSpec
unfolding keep_named
select_services [] ss = ss
select_services (n ∷ ns) ss = keep_named (n ∷ ns) ss

unfoldable pub any_failed : List ServiceRecord → Bool
any_failed [] = false
any_failed (r ∷ rs) = let later = any_failed rs in if status_eq r.status failed then true else later

pub data RunError : Type 0 where
  reading_package listing_existing listing_final : RunError
  marking_failed marking_ready : Error → RunError

-- What a job returns and leaves: the store of the worker and the migrations.
pub record Outcome : Type 0 where
  pub error : Option RunError
  pub store : Store
  pub world : World

-- A job of the queue: its payload, what it meets and how the goroutines were scheduled.
pub record Job : Type 0 where
  pub migration_id : ℕ
  pub service_filter : List String
  pub source : Source
  pub existing_fault : Bool
  pub final_fault : Bool
  pub environment : Environment
  pub toolbox : Toolbox
  pub schedule : List (List Effect) → List Effect

abbrev pub labelled : (Error → RunError) → Store → Result (Unit {0}) × World → Outcome
labelled label s (ok _, w) = record { error = none; store = s; world = w }
labelled label s (err e, w) = record { error = some (label e); store = s; world = w }

-- The last decision.
unfoldable pub advance : Ports → Job → List ServiceRecord → Store → World → Outcome
unfolding any_failed mark_ready mark_generation_failed
advance p job final s w =
    if any_failed final
    then labelled marking_failed s (mark_generation_failed p job.migration_id w)
    else labelled marking_ready s (mark_ready p job.migration_id w)

-- Behind `wg.Wait`.
unfoldable pub conclude : Ports → Job → GenerationPackage → Store → World → Outcome
unfolding advance assemble_error_aggregator list_records perform_all
conclude p job pkg s w =
    if job.final_fault
    then record { error = some listing_final; store = s; world = w }
    else let final = list_records job.migration_id s.records in
      let effects = assemble_error_aggregator job.toolbox job.migration_id pkg final s in
      advance p job final (perform_all effects s) w

-- The tasks that a job starts on a store.
unfoldable pub job_tasks : Job → GenerationPackage → Store → List (List Effect)
unfolding service_tasks select_services list_records
job_tasks job pkg s =
    service_tasks job.environment 0 job.migration_id pkg.output_profile
      (list_records job.migration_id s.records) (select_services job.service_filter pkg.services)

unfoldable pub run_package : Ports → Job → GenerationPackage → Store → World → Outcome
unfolding conclude job_tasks perform_all
run_package p job pkg s w =
    if job.existing_fault
    then record { error = some listing_existing; store = s; world = w }
    else conclude p job pkg (perform_all (job.schedule (job_tasks job pkg s)) s) w

unfoldable pub run : Ports → Job → Store → World → Outcome
unfolding run_package read_package
run p job s w = elim (read_package job.source job.migration_id w) [
  | none ↦ record { error = some reading_package; store = s; world = w }
  | some pkg ↦ run_package p job pkg s w
]
