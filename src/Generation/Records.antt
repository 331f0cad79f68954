-- ===== src/Generation/Records.antt =====
-- core/worker/generation/domain and ports: the records of the generation worker and the agent's port.
-- A cost is a float that is only copied: it stands as its bit pattern.
use milton_prism.Prelude.{ℕ, String, Bool, false, Option, List, [], ◌==◌}

pub data Status : Type 0 where
  pending generating done failed : Status

abbrev pub status_number : Status → ℕ
status_number pending = 0
status_number generating = 1
status_number done = 2
status_number failed = 3

-- `r.Status == …`
abbrev pub status_eq : Status → Status → Bool
status_eq s t = status_number s == status_number t

pub record FileArtifact : Type 0 where
  pub path : String
  pub content : String

pub record ServiceRecord : Type 0 where
  pub migration_id : ℕ
  pub service_name : String
  pub status : Status
  pub gates_passed : Bool
  pub failure_reason : String
  pub total_cost : ℕ
  pub generated_file_count : ℕ
  pub input_tokens : ℕ
  pub cache_creation_input_tokens : ℕ
  pub cache_read_input_tokens : ℕ
  pub output_tokens : ℕ
  pub agent_raw_result : String

-- A record as a literal with the named fields set: the others are zero.
unfoldable pub plain_record : ℕ → String → Status → String → ServiceRecord
plain_record migration_id name status reason = record {
  migration_id = migration_id;
  service_name = name;
  status = status;
  gates_passed = false;
  failure_reason = reason;
  total_cost = 0;
  generated_file_count = 0;
  input_tokens = 0;
  cache_creation_input_tokens = 0;
  cache_read_input_tokens = 0;
  output_tokens = 0;
  agent_raw_result = "";
}

pub record InvokeRequest : Type 0 where
  pub service_name : String
  pub error_prefix : String
  pub proto_content : String
  pub boundary_spec : String
  pub generator_prompt_ref : String
  pub output_profile : String
  pub api_key : String
  pub session_credentials_dir : String

pub record InvokeResult : Type 0 where
  pub success : Bool
  pub exit_code : ℕ
  pub raw_result : String
  pub gates_passed : Bool
  pub generated_files : List String
  pub file_artifacts : List FileArtifact
  pub total_cost : ℕ
  pub input_tokens : ℕ
  pub cache_creation_input_tokens : ℕ
  pub cache_read_input_tokens : ℕ
  pub output_tokens : ℕ
  pub failure_reason : String

-- `var result ports.InvokeResult`
abbrev pub zero_result : InvokeResult
zero_result = record {
  success = false;
  exit_code = 0;
  raw_result = "";
  gates_passed = false;
  generated_files = [];
  file_artifacts = [];
  total_cost = 0;
  input_tokens = 0;
  cache_creation_input_tokens = 0;
  cache_read_input_tokens = 0;
  output_tokens = 0;
  failure_reason = "";
}

-- The pair that `Invoke` returns, and that the loop over the attempts keeps.
pub record Answer : Type 0 where
  pub result : InvokeResult
  pub invoke_error : Option String
