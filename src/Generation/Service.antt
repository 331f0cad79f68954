-- ===== src/Generation/Service.antt =====
-- core/worker/generation/application/pipeline.go: what the worker does for one service, as the list of
-- its effects on what the goroutines share, and how such lists run side by side.
use milton_prism.Prelude.{
  ℕ, zero, suc, ◌+◌, String, Bool, true, false, List, [], ◌∷◌, ◌++◌, if◌then◌else◌, str_eq,
}
use milton_prism.Migration.Publish.{ServiceSpec}
use milton_prism.Generation.Records.{
  generating, done, failed, status_eq, FileArtifact, ServiceRecord, plain_record, InvokeRequest,
}
use milton_prism.Generation.Store.{Store, BulkOutcome, upsert_record, upsert_artifacts}
use milton_prism.Generation.Agent.{Agent, Trial, try_agent, result_record}

-- A command that failed at the server changes nothing and is no effect.
pub data Effect : Type 0 where
  put_record : ServiceRecord → Effect
  put_files : BulkOutcome → (migration_id : ℕ) → (name : String) → List FileArtifact → Effect
  invoked : InvokeRequest → Effect

unfoldable pub perform : Effect → Store → Store
unfolding upsert_record upsert_artifacts
perform (put_record r) s = record s { records = upsert_record r s.records }
perform (put_files outcome migration_id name files) s = record s {
  files = (upsert_artifacts outcome migration_id name files s.files).1;
}
perform (invoked req) s = record s { invocations = s.invocations ++ (req ∷ []) }

unfoldable pub perform_all : List Effect → Store → Store
unfolding perform
perform_all [] s = s
perform_all (e ∷ es) s = perform_all es (perform e s)

-- What the services of a run meet, by their position among the services that run: the agent, whether
-- the semaphore is refused because the context has ended, whether the n-th upsert of the record fails,
-- and the outcome of the write of the files.
pub record Environment : Type 0 where
  pub agent : ℕ → Agent
  pub refused_at_gate : ℕ → Bool
  pub record_fault : ℕ → ℕ → Bool
  pub bulk_outcome : ℕ → BulkOutcome
  pub api_key : String
  pub cred_dir : String

-- `UpsertRecord`, whose error is only logged.
abbrev pub try_put : Bool → ServiceRecord → List Effect
try_put faulty r = if faulty then [] else put_record r ∷ []

abbrev pub repeat_effect : ℕ → Effect → List Effect
repeat_effect zero e = []
repeat_effect (suc n) e = e ∷ repeat_effect n e

abbrev pub try_files : BulkOutcome → ℕ → String → List FileArtifact → List Effect
try_files outcome migration_id name [] = []
try_files outcome migration_id name (f ∷ fs) = put_files outcome migration_id name (f ∷ fs) ∷ []

unfoldable pub request_of : Environment → String → ServiceSpec → InvokeRequest
request_of env profile spec = record {
  service_name = spec.name;
  error_prefix = spec.error_prefix;
  proto_content = spec.proto_content;
  boundary_spec = spec.boundary_spec;
  generator_prompt_ref = spec.generator_prompt_ref;
  output_profile = profile;
  api_key = env.api_key;
  session_credentials_dir = env.cred_dir;
}

-- The last two writes, with what the attempts gave.
unfoldable pub persist : Environment → ℕ → ℕ → String → Trial → List Effect
unfolding result_record
persist env i migration_id name trial =
    try_put (env.record_fault i 1) (result_record migration_id name trial.answer)
    ++ try_files (env.bulk_outcome i) migration_id name trial.answer.result.file_artifacts

unfoldable pub generate_service : Environment → ℕ → ℕ → String → ServiceSpec → List Effect
unfolding persist request_of try_agent plain_record
generate_service env i migration_id profile spec =
    let req = request_of env profile spec in
    let trial = try_agent (env.agent i) req in
    try_put (env.record_fault i 0) (plain_record migration_id spec.name generating "")
    ++ (repeat_effect trial.calls (invoked req) ++ persist env i migration_id spec.name trial)

abbrev pub cancelled_reason : String
cancelled_reason = "context cancelled before generation started"

-- The body of the goroutine.
unfoldable pub run_goroutine : Environment → ℕ → ℕ → String → ServiceSpec → List Effect
unfolding generate_service plain_record
run_goroutine env i migration_id profile spec =
    if env.refused_at_gate i
    then try_put (env.record_fault i 0)
        (plain_record migration_id spec.name failed cancelled_reason)
    else generate_service env i migration_id profile spec

-- The loop over the services, whose `doneSet` is the set of the names with a record that is done.
unfoldable pub is_done : String → List ServiceRecord → Bool
is_done name [] = false
is_done name (r ∷ rs) =
    let later = is_done name rs in
    if status_eq r.status done then (if str_eq r.service_name name then true else later) else later

unfoldable pub service_task :
    Environment → ℕ → ℕ → String → List ServiceRecord → ServiceSpec → List Effect
unfolding is_done run_goroutine plain_record
service_task env i migration_id profile existing spec =
    if is_done spec.name existing
    then []
    else if spec.incomplete
    then try_put (env.record_fault i 0)
        (plain_record migration_id spec.name failed spec.incomplete_reason)
    else run_goroutine env i migration_id profile spec

unfoldable pub service_tasks :
    Environment → ℕ → ℕ → String → List ServiceRecord → List ServiceSpec → List (List Effect)
unfolding service_task
service_tasks env i migration_id profile existing [] = []
service_tasks env i migration_id profile existing (spec ∷ specs) =
    service_task env i migration_id profile existing spec
    ∷ service_tasks env (i + 1) migration_id profile existing specs

-- One task makes its next effect.
pub data Picks (e : Effect) : List (List Effect) → List (List Effect) → Type 0 where
  here : {es : List Effect} {ts : List (List Effect)} → Picks e ((e ∷ es) ∷ ts) (es ∷ ts)
  there :
      {t : List Effect} {ts ts' : List (List Effect)} → Picks e ts ts' → Picks e (t ∷ ts) (t ∷ ts')

abbrev pub AllDone : List (List Effect) → Type 0
AllDone [] = Unit
AllDone ([] ∷ ts) = AllDone ts
AllDone ((_ ∷ _) ∷ ts) = ⊥

-- A list of effects is an interleaving of the tasks: what the goroutines did up to `wg.Wait`.
pub data Interleaves : List (List Effect) → List Effect → Type 0 where
  finished : {ts : List (List Effect)} → AllDone ts → Interleaves ts []
  advances :
      {e : Effect} {es : List Effect} {ts ts' : List (List Effect)}
      → Picks e ts ts'
      → Interleaves ts' es
      → Interleaves ts (e ∷ es)
