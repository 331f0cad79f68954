-- ===== src/Migration/Ports.antt =====
-- core/services/migration/ports: what the service is wired to. Other services, queues, language
-- models and the database driver are parameters: an answer is a function of the time of the call and
-- of its arguments. An optional port that may be nil is an `Option`.
use milton_prism.Prelude.{ℕ, String, Bool, Option, List}
use milton_prism.Migration.Domain.{Error, Assessment, Roadmap, GenerationRecord, MigrabilityScore}
use milton_prism.Migration.World.{Result}

pub data AnalysisState : Type 0 where
  running completed failed_analysis : AnalysisState

-- The fields of an AnalysisSummary that the service reads.
pub record AnalysisSummary : Type 0 where
  pub repository_id : ℕ
  pub state : AnalysisState
  pub source_branch : String
  pub migrability_score : Option MigrabilityScore
  pub infra_modules : List String

pub record PushFile : Type 0 where
  pub path : String
  pub content : String

pub record GeneratedFile : Type 0 where
  pub service_name : String
  pub path : String
  pub content : String

pub record ServiceArtifact : Type 0 where
  pub service_name : String
  pub proto_content : String
  pub boundary_spec : String
  pub incomplete : Bool
  pub incomplete_reason : String

pub record RepositoryClient : Type 0 where
  pub fetch_repository_url : ℕ → ℕ → Result String
  pub probe_connection : ℕ → ℕ → Option Error
  pub push_files : ℕ → String → String → List PushFile → String → Result String

pub record AnalysisClient : Type 0 where
  pub run_analysis : ℕ → ℕ → ℕ → ℕ → String → Option Error
  pub get_analysis_summary : ℕ → ℕ → Result AnalysisSummary

-- `db_fault t` is the driver's error of a database command issued at time `t`.
pub record Ports : Type 0 where
  pub db_fault : ℕ → Option ℕ
  pub context_done : ℕ → Bool
  pub session_starts : ℕ → Bool
  pub identity : Option (ℕ → ℕ → Option Error)
  pub repo_svc : Option RepositoryClient
  pub analysis : Option AnalysisClient
  pub read_artifacts : ℕ → ℕ → Result (List ServiceArtifact)
  pub generation_enqueuer : Option (ℕ → ℕ → List String → Option Error)
  pub decompose_enqueuer : Option (ℕ → ℕ → ℕ → String → String → Option Error)
  pub read_results : Option (ℕ → ℕ → Result (List GenerationRecord))
  pub list_artifacts : ℕ → ℕ → String → Result (List GeneratedFile)
  pub migrability_assessor : Option (ℕ → ℕ → String → Result Assessment)
  pub roadmap_enricher : Option (ℕ → Roadmap → Result String)
  pub blueprint_generator : Option (ℕ → ℕ → Roadmap → Result String)
