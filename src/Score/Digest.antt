-- ===== src/Score/Digest.antt =====
-- core/worker/decomposition/domain/digest.go and score.go: what the scorer reads and what it returns. The
-- prose of a signal and the parameters of its translation are left out: they are only shown.
use milton_prism.Prelude.{ℕ, String, Bool, List}

pub record ModuleCard : Type 0 where
  pub module_name : String
  pub functions : List String
  pub is_shared_state_hub : Bool

pub record Hub : Type 0 where
  pub module_name : String
  pub fan_in : ℕ

pub record Edge : Type 0 where
  pub from : String
  pub to : String

pub record Digest : Type 0 where
  pub nodes : List String
  pub edges : List Edge
  pub clusters : List (List String)
  pub module_cards : List ModuleCard
  pub single_blueprint : Bool
  pub has_http_routes : Bool
  pub domain_modules : List String
  pub infra_modules : List String
  pub domain_empty : Bool
  pub shared_state_hubs : List Hub

pub record ScoreComponent : Type 0 where
  pub signal : String
  pub penalty : ℕ
  pub modules : List String
  pub detail_key : String

pub data Severity : Type 0 where
  low medium high : Severity

pub record Finding : Type 0 where
  pub kind : String
  pub severity : Severity
  pub modules : List String

pub data Band : Type 0 where
  good fair bad : Band
