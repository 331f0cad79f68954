-- ===== src/Generation/Agent.antt =====
-- core/worker/generation/application/pipeline.go: the calls of the agent for one service, with their
-- repetitions, and the record that comes of them.
use milton_prism.Prelude.{
  ℕ, suc, ◌+◌, zero, String, Bool, true, false, not, ◌&&◌, ◌||◌, Option, none, some, List, [], ◌∷◌,
  if◌then◌else◌, ltb, length, find?,
}
use milton_prism.Generation.Records.{
  Status, done, failed, ServiceRecord, InvokeRequest, zero_result, Answer,
}

abbrev pub max_service_attempts : ℕ
max_service_attempts = 3

abbrev pub rate_limit_keywords : List String
rate_limit_keywords =
    "rate limit" ∷ "rate_limit" ∷ "too many requests" ∷ "429" ∷ "overloaded"
    ∷ "server temporarily unavailable" ∷ []

-- `strings.Contains(s, t)`
abbrev pub contains : String → String → Bool
contains s t = elim (find? s t) [ none ↦ false | some _ ↦ true ]

unfoldable pub contains_any : String → List String → Bool
contains_any s [] = false
contains_any s (k ∷ ks) = contains s k || contains_any s ks

-- `to_lower` is the standard library's `strings.ToLower`.
unfoldable pub is_transient_error : (String → String) → Option String → String → Bool
unfolding contains_any
is_transient_error to_lower (some e) reason = true
is_transient_error to_lower none reason = contains_any (to_lower reason) rate_limit_keywords

-- The agent and the context, as one service of a run meets them: what the call of an attempt returns,
-- and the context's error where it ends while the worker waits before an attempt.
pub record Agent : Type 0 where
  pub to_lower : String → String
  pub invoke : ℕ → InvokeRequest → Answer
  pub interrupted : ℕ → Option String

abbrev pub is_none {ℓ} : {A : Type ℓ} → Option A → Bool
is_none none = true
is_none (some _) = false

abbrev pub succeeded : Answer → Bool
succeeded a = is_none a.invoke_error && a.result.gates_passed

-- The outcome of the loop and the number of its calls of the agent.
pub record Trial : Type 0 where
  pub answer : Answer
  pub calls : ℕ

abbrev pub wait_before : Agent → ℕ → Option String
wait_before agent attempt = if ltb 1 attempt then agent.interrupted attempt else none

-- `for attempt <= maxServiceAttempts`, by the number of attempts left. `last` is what the variables of
-- the loop hold.
unfoldable pub attempts : Agent → InvokeRequest → ℕ → ℕ → Trial → Trial
unfolding is_transient_error
attempts agent req zero attempt last = last
attempts agent req (suc left) attempt last = elim (wait_before agent attempt) [
  | some e ↦ record last { answer = record last.answer { invoke_error = some e } }
  | none ↦
      let answer = agent.invoke attempt req in
      let trial : Trial = record { answer = answer; calls = last.calls + 1 } in
      let again = attempts agent req left (attempt + 1) trial in
      if succeeded answer
      then trial
      else if is_transient_error agent.to_lower answer.invoke_error answer.result.failure_reason
      then again
      else trial
]

abbrev pub untried : Trial
untried = record { answer = record { result = zero_result; invoke_error = none }; calls = 0 }

unfoldable pub try_agent : Agent → InvokeRequest → Trial
unfolding attempts
try_agent agent req = attempts agent req max_service_attempts 1 untried

-- The switch behind `persist:`.
unfoldable pub status_of : Answer → Status
status_of a = elim a.invoke_error [
  | some e ↦ failed
  | none ↦ if not a.result.gates_passed then failed else done
]

unfoldable pub reason_of : Answer → String
reason_of a = elim a.invoke_error [
  | some e ↦ e
  | none ↦ if not a.result.gates_passed then a.result.failure_reason else ""
]

unfoldable pub passed : Answer → Bool
passed a = elim a.invoke_error [ some e ↦ false | none ↦ a.result.gates_passed ]

unfoldable pub result_record : ℕ → String → Answer → ServiceRecord
unfolding status_of reason_of passed
result_record migration_id name a = record {
  migration_id = migration_id;
  service_name = name;
  status = status_of a;
  gates_passed = passed a;
  failure_reason = reason_of a;
  total_cost = a.result.total_cost;
  generated_file_count = length a.result.generated_files;
  input_tokens = a.result.input_tokens;
  cache_creation_input_tokens = a.result.cache_creation_input_tokens;
  cache_read_input_tokens = a.result.cache_read_input_tokens;
  output_tokens = a.result.output_tokens;
  agent_raw_result = a.result.raw_result;
}
