-- ===== src/Migration/Domain.antt =====
-- core/services/migration/domain: the states, errors and messages of a migration.
-- The generated message types are taken with the fields that the service reads or writes.
use milton_prism.Prelude.{ℕ, String, Bool, true, false, Option, none, some, List, []}

pub data State : Type 0 where
  unspecified pending analyzing designing awaiting_approval generating testing ready pushed failed
        cancelled restructuring_ready :
      State

pub data Language : Type 0 where
  unset go rust python : Language

pub data Database : Type 0 where
  unset mongodb postgres mariadb : Database

-- The typed errors MIG101 … MIG221. `wrapped` is `fmt.Errorf("<context>: %w", err)`; `driver` is an
-- error of the database driver, `duplicate_key` that of a taken key; `not_configured` is the plain error of a missing optional port;
-- `context_done` is
-- the error of a cancelled request, and `panic` a call through a nil port.
pub data Error : Type 0 where
  missing_identifier missing_payload missing_owner_user_id missing_repository_id
        invalid_target_config :
      Error
  migration_not_found invalid_state_transition repository_not_found owner_not_found
        no_service_boundaries no_artifacts not_migrable_blocked no_analysis_summary repo_auth_failed
        repo_unreachable roadmap_unavailable source_analysis_not_found source_analysis_invalid
        no_roadmap no_blueprint_analysis no_action_plan push_auth_failed push_conflict
        push_network_error internal :
      Error
  artifact_conflict : String → Error
  not_configured : String → Error
  driver : ℕ → Error
  wrapped : String → Error → Error
  context_done : Error
  duplicate_key : Error
  panic : Error

pub record TargetConfig : Type 0 where
  pub language : Language
  pub database : Database

pub record CrossServiceFk : Type 0 where
  pub owner_service : String
  pub owner_message : String
  pub field : String
  pub ref_table : String
  pub ref_service : String

pub record ProposedService : Type 0 where
  pub name : String
  pub error_prefix : String
  pub owned_resources : List String
  pub inter_service_deps : List String
  pub cross_service_fks : List CrossServiceFk

pub record OperationalCoupling : Type 0 where
  pub from_service : String
  pub to_service : String
  pub source_module : String

pub record CandidateGrouping : Type 0 where
  pub name : String
  pub modules : List String
  pub responsibilities : List String
  pub confidence : String

pub record RestructureRecommendation : Type 0 where
  pub kind : String
  pub subject : String
  pub action : String
  pub blocking : Bool

-- The modularity of the partition, a float that is only handed on, is left out.
pub record RestructurePlan : Type 0 where
  pub services : List ProposedService
  pub rationale : String
  pub operational_couplings : List OperationalCoupling
  pub is_low_confidence : Bool
  pub no_service_boundaries : Bool
  pub boundaries_explanation : String
  pub candidate_groupings : List CandidateGrouping
  pub restructure_recommendations : List RestructureRecommendation

-- A penalty is an int32 that the scorer never makes negative; a negative one would be skipped as 0 is.
pub record ScoreSignal : Type 0 where
  pub signal : String
  pub penalty : ℕ
  pub detail : String

pub record MigrabilityScore : Type 0 where
  pub value : ℕ
  pub signals : List ScoreSignal

pub record Assessment : Type 0 where
  pub verdict : String
  pub summary : String
  pub confidence : String
  pub blockers : List String
  pub migrability_score : Option ℕ
  pub score_signals : List ScoreSignal

pub record ActionItem : Type 0 where
  pub kind : String
  pub subject : String
  pub action : String
  pub blocking : Bool
  pub impact : ℕ
  pub order : ℕ
  pub depends_on_step : ℕ

pub record StructuralProblem : Type 0 where
  pub signal : String
  pub penalty : ℕ
  pub detail : String

pub record Diagnosis : Type 0 where
  pub verdict : String
  pub summary : String
  pub migrability_score : Option ℕ
  pub confidence : String
  pub blockers : List String

-- The enrichment and the blueprint are texts of the language model, kept opaque.
pub record Roadmap : Type 0 where
  pub diagnosis : Option Diagnosis
  pub structural_problems : List StructuralProblem
  pub action_plan : List ActionItem
  pub boundaries_explanation : String
  pub enrichment : Option String
  pub blueprint : Option String

pub record GenerationRecord : Type 0 where
  pub service_name : String
  pub status : String
  pub agent_raw_result : String

pub record Migration : Type 0 where
  pub identifier : ℕ
  pub repository_id : ℕ
  pub repository_url : String
  pub owner_user_id : ℕ
  pub source_branch : String
  pub state : State
  pub target : Option TargetConfig
  pub analysis_summary_id : ℕ
  pub source_analysis_summary_id : ℕ
  pub plan : Option RestructurePlan
  pub assessment : Option Assessment
  pub override : Bool
  pub analysis_reused : Bool
  pub roadmap : Option Roadmap
  pub generation_records : List GenerationRecord

-- The generated getters of a nil message return the zero value.
abbrev pub get_no_service_boundaries : Option RestructurePlan → Bool
get_no_service_boundaries none = false
get_no_service_boundaries (some p) = p.no_service_boundaries

abbrev pub get_boundaries_explanation : Option RestructurePlan → String
get_boundaries_explanation none = ""
get_boundaries_explanation (some p) = p.boundaries_explanation

abbrev pub get_services : Option RestructurePlan → List ProposedService
get_services none = []
get_services (some p) = p.services

-- `state == …` on the enumeration.
abbrev pub state_number : State → ℕ
state_number unspecified = 0
state_number pending = 1
state_number analyzing = 2
state_number designing = 3
state_number awaiting_approval = 4
state_number generating = 5
state_number testing = 6
state_number ready = 7
state_number pushed = 8
state_number failed = 9
state_number cancelled = 10
state_number restructuring_ready = 11

-- Terminal states are PUSHED, FAILED, CANCELLED and RESTRUCTURING_READY.
abbrev pub is_terminal_state : State → Bool
is_terminal_state pushed = true
is_terminal_state failed = true
is_terminal_state cancelled = true
is_terminal_state restructuring_ready = true
is_terminal_state _ = false
