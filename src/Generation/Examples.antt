-- ===== src/Generation/Examples.antt =====
-- The theorems of the generation worker on a migration with two services, one of them done.
use milton_prism.Generation.Mirror.{read_package-agrees}
use milton_prism.Migration.World.{err, ok}
use milton_prism.Generation.Results.{final_answer}
use milton_prism.Generation.Reasons.{upsert_record-keeps_reason}
use milton_prism.Generation.Free.{settled-schedule}
use milton_prism.Generation.Ready.{
  job_existing, Runs, run-fails, job_specs, IsSound, run-reaches_ready,
}
use milton_prism.Prelude.{
  str_eq, subst, get_elem?, some_eq, Bool, ℕ, zero, suc, ◌≤◌, ◌<◌, String, true, false, none, some,
  List, [], ◌∷◌, ◌++◌, ◌≡◌, refl, ◌==◌, if◌then◌else◌, arith,
}
use milton_prism.Migration.Domain.{invalid_state_transition, state_number, State, generating}
use milton_prism.Migration.Ports.{Ports, ServiceArtifact}
use milton_prism.Migration.Publish.{
  service_spec, get_generation_package, ServiceSpec, GenerationPackage,
}
use milton_prism.Migration.Examples.{quiet, doc_in, world_with}
use milton_prism.Generation.Records.{
  failed, status_eq, done, ServiceRecord, plain_record, InvokeRequest, zero_result, Answer,
}
use milton_prism.Generation.Store.{list_records, upsert_record, Store, bulk, find_record}
use milton_prism.Generation.Agent.{
  result_record, status_of, attempts, Agent, try_agent, is_transient_error, contains_any,
}
use milton_prism.Generation.Package.{read_package, package_of}
use milton_prism.Generation.Service.{
  request_of, is_done, Effect, Environment, Picks, Interleaves, AllDone,
}
use milton_prism.Generation.Run.{select_services, Job, run}
use milton_prism.Generation.Aggregator.{Toolbox}
use milton_prism.Generation.Retry.{IsTransient, try_agent_bounds, try_agent-passes}
use milton_prism.Generation.Idempotence.{settled, NoCallsFor}
use milton_prism.Generation.Done.{run-keeps_done}
use milton_prism.Generation.Decision.{StandsIn, decided, run-decides}
use milton_prism.Generation.Completion.{run-succeeds}

-- One goroutine behind the other.
only : (t : List Effect) {ts : List (List Effect)} → AllDone ts → Interleaves (t ∷ ts) t
only [] d = Interleaves.finished d
only (e ∷ t) d = Interleaves.advances Picks.here (only t d)

abbrev one_by_one : List (List Effect) → List Effect
one_by_one [] = []
one_by_one (t ∷ ts) = t ++ one_by_one ts

idle : {ts : List (List Effect)} {es : List Effect} → Interleaves ts es → Interleaves ([] ∷ ts) es
idle (Interleaves.finished d) = Interleaves.finished d
idle (Interleaves.advances p i) = Interleaves.advances (Picks.there p) (idle i)

first_then :
    (t : List Effect) {ts : List (List Effect)} {es : List Effect}
    → Interleaves ts es
    → Interleaves (t ∷ ts) (t ++ es)
first_then [] i = idle i
first_then (e ∷ t) i = Interleaves.advances Picks.here (first_then t i)

one_by_one-fair : (ts : List (List Effect)) → Interleaves ts (one_by_one ts)
one_by_one-fair [] = Interleaves.finished tt
one_by_one-fair (t ∷ ts) = first_then t (one_by_one-fair ts)

-- The last goroutine first.
abbrev last_first : List (List Effect) → List Effect
last_first [] = []
last_first (t ∷ ts) = last_first ts ++ t

behind :
    (t : List Effect) {ts : List (List Effect)} {es : List Effect}
    → Interleaves ts es
    → Interleaves (t ∷ ts) (es ++ t)
behind t (Interleaves.finished d) = only t d
behind t (Interleaves.advances p i) = Interleaves.advances (Picks.there p) (behind t i)

last_first-fair : (ts : List (List Effect)) → Interleaves ts (last_first ts)
last_first-fair [] = Interleaves.finished tt
last_first-fair (t ∷ ts) = behind t (last_first-fair ts)

abbrev pub limited : Answer
limited = record {
  result = record zero_result { failure_reason = "429 too many requests" };
  invoke_error = none;
}

abbrev pub good : Answer
good = record {
  result = record zero_result {
    success = true;
    gates_passed = true;
    generated_files = "a.go" ∷ [];
    file_artifacts = record { path = "a.go"; content = "package a" } ∷ [];
  };
  invoke_error = none;
}

-- The agent is held up once and then passes; the other one never compiles.
abbrev pub slow : Agent
slow = record {
  to_lower = λ s. s;
  invoke = λ attempt req. if attempt == 1 then limited else good;
  interrupted = λ attempt. none;
}

abbrev broken : Agent
broken = record slow {
  invoke = λ attempt req. record limited {
    result = record zero_result { failure_reason = "go build: undefined: x" };
  };
}

abbrev pub environment_with : Agent → Environment
environment_with agent = record {
  agent = λ i. agent;
  refused_at_gate = λ i. false;
  record_fault = λ i k. false;
  bulk_outcome = λ i. bulk (λ f. true) false;
  api_key = "key";
  cred_dir = "";
}

abbrev box : Toolbox
box = record {
  base = λ s. s;
  has_suffix = λ s t. false;
  sort_strings = λ xs. xs;
  var_names = λ s. [];
  read_dir = none;
  list_fault = λ n. false;
  aggregator_outcome = bulk (λ f. true) false;
}

abbrev artifact : String → ServiceArtifact
artifact name = record {
  service_name = name;
  proto_content = "";
  boundary_spec = "";
  incomplete = false;
  incomplete_reason = "";
}

abbrev job_with : Agent → Job
job_with agent = record {
  migration_id = 10002;
  service_filter = [];
  source = record {
    find_fault = false;
    artifacts = some (artifact "orders" ∷ artifact "billing" ∷ []);
  };
  existing_fault = false;
  final_fault = false;
  environment = environment_with agent;
  toolbox = box;
  schedule = one_by_one;
}

abbrev billing_done : ServiceRecord
billing_done = plain_record 10002 "billing" done ""

abbrev store : Store
store = record { records = billing_done ∷ []; files = []; invocations = [] }

abbrev pkg : GenerationPackage
pkg = package_of 10002 (doc_in generating) (artifact "orders" ∷ artifact "billing" ∷ [])

abbrev request : InvokeRequest
request = record {
  service_name = "orders";
  error_prefix = "";
  proto_content = "";
  boundary_spec = "";
  generator_prompt_ref = "";
  output_profile = "go";
  api_key = "key";
  session_credentials_dir = "";
}

try_agent_bounds_example :
    ((try_agent slow request).calls ≤ 3)
    × ((j : ℕ) → 1 ≤ j → j < (try_agent slow request).calls → IsTransient slow request j)
try_agent_bounds_example = try_agent_bounds slow request

held_up_once : (j : ℕ) → 1 ≤ j → j < 2 → IsTransient slow request j
unfolding is_transient_error contains_any
held_up_once zero p q = elim p [ ]
held_up_once (suc zero) p q = (refl, refl)
held_up_once (suc (suc j)) p q = absurd (omega arith)

try_agent-passes_example : (try_agent slow request).answer ≡ good
try_agent-passes_example =
    try_agent-passes slow request 2 (omega arith) (omega arith) (λ j p q. refl) held_up_once refl

run-succeeds_example : (run quiet (job_with broken) store (world_with generating)).error ≡ none
unfolding read_package package_of
run-succeeds_example =
    run-succeeds quiet (job_with broken) store (world_with generating) pkg (λ t. refl) refl refl
      refl

run-decides_example :
    StandsIn 10002
      (decided 10002 (run quiet (job_with broken) store (world_with generating)).store)
      (run quiet (job_with broken) store (world_with generating)).world
unfolding read_package package_of
run-decides_example = run-decides quiet (job_with broken) store (world_with generating) (
    run-succeeds quiet (job_with broken) store (world_with generating) pkg (λ t. refl) refl refl
      refl)

run-keeps_done_example :
    (find_record 10002 "billing"
        (run quiet (job_with slow) store (world_with generating)).store.records
      ≡ some billing_done)
    × NoCallsFor "billing" store (run quiet (job_with slow) store (world_with generating)).store
unfolding plain_record find_record
run-keeps_done_example =
    run-keeps_done (job_with slow) one_by_one-fair store "billing" billing_done refl refl quiet
      (world_with generating)

abbrev orders_spec : ServiceSpec
orders_spec =
    service_spec [] "docs/prism/milton-prism-service-generator-prompt.md" (artifact "orders")

abbrev billing_spec : ServiceSpec
billing_spec =
    service_spec [] "docs/prism/milton-prism-service-generator-prompt.md" (artifact "billing")

IsSound-with : (agent : Agent) → IsSound (job_with agent) pkg store
unfolding package_of select_services service_spec plain_record find_record
IsSound-with agent = record {
  fair = one_by_one-fair;
  unique = (refl, tt);
  distinct = (((λ e. cc (subst (λ n. str_eq n "billing" ≡ true) e refl)), tt), (tt, tt));
}

orders-Runs : (agent : Agent) → Runs (job_with agent) pkg store 0 orders_spec
unfolding package_of select_services service_spec is_done list_records plain_record
orders-Runs agent = record {
  selected = refl;
  not_done = refl;
  complete = refl;
  admitted = refl;
  stored = refl;
}

run-fails_example :
    ((run quiet (job_with broken) store (world_with generating)).error ≡ none)
    × StandsIn 10002 State.failed (run quiet (job_with broken) store (world_with generating)).world
unfolding read_package package_of try_agent attempts is_transient_error contains_any status_of
    service_spec request_of
run-fails_example =
    run-fails (job_with broken) pkg store (IsSound-with broken) quiet (world_with generating)
      (λ t. refl) refl refl refl 0 orders_spec (orders-Runs broken) refl

no_failed_record :
    (n : String) (r : ServiceRecord) (b : Bool)
    → (if b then some billing_done else none) ≡ some r
    → status_eq r.status failed ≡ true
    → ⊥
unfolding plain_record
no_failed_record n r false e f = cc
no_failed_record n r true e f = absurd (
    cc
      (f, some_eq (λ (x : ServiceRecord). status_eq x.status failed ≡ false) billing_done r refl e))

clean :
    (n : String) (r : ServiceRecord)
    → find_record 10002 n store.records ≡ some r
    → status_eq r.status failed ≡ true
    → (i : ℕ) × (spec : ServiceSpec) × (get_elem? (job_specs (job_with slow) pkg) i ≡ some spec)
      × (spec.name ≡ n)
unfolding find_record plain_record
clean n r e f = absurd (no_failed_record n r (str_eq "billing" n) e f)

passes :
    (i : ℕ) (spec : ServiceSpec)
    → get_elem? (job_specs (job_with slow) pkg) i ≡ some spec
    → is_done spec.name (job_existing (job_with slow) store) ≡ false
    → Runs (job_with slow) pkg store i spec
      × (status_of (final_answer (job_with slow).environment i pkg.output_profile spec) ≡ done)
unfolding package_of select_services service_spec is_done list_records plain_record try_agent
    attempts is_transient_error contains_any status_of request_of
passes zero spec e nd =
    some_eq
      (λ (x : ServiceSpec).
        Runs (job_with slow) pkg store 0 x
        × (status_of (final_answer (job_with slow).environment 0 pkg.output_profile x) ≡ done))
      orders_spec spec (orders-Runs slow, refl) e
passes (suc zero) spec e nd = absurd (
    cc (
      nd,
      some_eq (λ (x : ServiceSpec). is_done x.name (job_existing (job_with slow) store) ≡ true)
          billing_spec spec refl e,
    ))
passes (suc (suc i)) spec e nd = absurd (cc e)

run-reaches_ready_example :
    ((run quiet (job_with slow) store (world_with generating)).error ≡ none)
    × StandsIn 10002 State.ready (run quiet (job_with slow) store (world_with generating)).world
unfolding read_package package_of
run-reaches_ready_example =
    run-reaches_ready (job_with slow) pkg store (IsSound-with slow) quiet (world_with generating)
      (λ t. refl) refl refl refl clean passes

settled-schedule_example :
    find_record 10002 "orders" (settled (job_with slow) pkg store).records
    ≡ find_record 10002 "orders"
        (settled (record (job_with slow) { schedule = last_first }) pkg store).records
settled-schedule_example =
    settled-schedule (job_with slow) pkg store last_first (IsSound-with slow) last_first-fair
      "orders"

abbrev old_failure : ServiceRecord
old_failure = plain_record 10002 "orders" failed "go build: undefined: x"

upsert_record-keeps_reason_example :
    (r : ServiceRecord) × (find_record 10002 "orders"
        (upsert_record (result_record 10002 "orders" good) (old_failure ∷ []))
      ≡ some r)
    × (r.status ≡ done)
    × (r.failure_reason ≡ "go build: undefined: x")
unfolding plain_record find_record status_of
upsert_record-keeps_reason_example =
    upsert_record-keeps_reason 10002 "orders" good (old_failure ∷ []) old_failure refl refl

abbrev answering : Ports
answering = record quiet { read_artifacts = λ t id. ok (artifact "orders" ∷ []) }

read_package-agrees_example :
    (x : GenerationPackage) × (read_package
        (record { find_fault = false; artifacts = some (artifact "orders" ∷ []) })
        10002
        (world_with generating)
      ≡ some x)
    × ((get_generation_package answering 10002 (world_with generating)).0 ≡ (
        if state_number generating == state_number generating
        then ok x
        else err invalid_state_transition))
read_package-agrees_example =
    read_package-agrees answering 10002 (world_with generating) (doc_in generating)
      (artifact "orders") [] (λ t. refl) refl refl refl refl
