-- ===== src/Decomposition/Domain.antt =====
-- core/worker/decomposition/domain/domain.go: the types that the stages of the decomposition hand on, and
-- the graph functions. A module is its name. The weight of an edge and the modularity of a partition are
-- left out: only the clusterers compute with them.
use milton_prism.Prelude.{
  ℕ, zero, suc, ◌+◌, ◌*◌, String, Bool, true, false, ◌&&◌, Option, none, some, List, [], ◌∷◌, ◌==◌,
  if◌then◌else◌, ltb, length, any, str_eq,
}
use milton_prism.Migration.Domain.{
  CandidateGrouping, RestructureRecommendation, OperationalCoupling, CrossServiceFk,
}

pub record Edge : Type 0 where
  pub from_module : String
  pub to_module : String

pub record Classification : Type 0 where
  pub infra : List String
  pub domain : List String
  pub tests : List String
  pub structural_fallback : Bool

pub record Cluster : Type 0 where
  pub blueprint_group : String
  pub modules : List String

-- The proposed groups and the recommendations have the fields of the messages of the plan.
pub record ClusteringResult : Type 0 where
  pub clusters : List Cluster
  pub low_confidence : Bool
  pub candidate_groupings : List CandidateGrouping
  pub restructure_recs : List RestructureRecommendation

pub record ServiceCandidate : Type 0 where
  pub name : String
  pub error_prefix : String
  pub owned_resources : List String
  pub deps : List String
  pub operational_couplings : List OperationalCoupling

pub record ProtoField : Type 0 where
  pub name : String
  pub is_cross_fk : Bool
  pub ref_table : String
  pub ref_service : String

pub record ProtoMessage : Type 0 where
  pub name : String
  pub fields : List ProtoField

-- The fields that the stages behind the deriver read.
pub record DerivedContract : Type 0 where
  pub service_name : String
  pub proto_content : String
  pub messages : List ProtoMessage
  pub incomplete : Bool
  pub incomplete_reason : String

pub record DataOwnership : Type 0 where
  pub shared_database : Bool
  pub cross_service_fks : List CrossServiceFk
  pub operational_couplings : List OperationalCoupling

-- A set of names, as a list with a test.
abbrev pub is_in : String → List String → Bool
is_in m ns = any (λ n. str_eq n m) ns

-- DomainSubgraph: the edges between modules of the domain.
unfoldable pub domain_subgraph : List Edge → List String → List Edge
domain_subgraph [] modules = []
domain_subgraph (e ∷ es) modules =
    let rest = domain_subgraph es modules in
    if is_in e.from_module modules && is_in e.to_module modules then e ∷ rest else rest

-- `clusterOf[m]`: the index of the last cluster that lists the module, counted from `i`.
unfoldable pub cluster_of : String → ℕ → List Cluster → Option ℕ
cluster_of m i [] = none
cluster_of m i (c ∷ cs) = elim (cluster_of m (i + 1) cs) [
  | some j ↦ some j
  | none ↦ if is_in m c.modules then some i else none
]

-- `okFrom && okTo && ci == cj`, with the index.
abbrev pub same_index : Option ℕ → Option ℕ → Option ℕ
same_index none o = none
same_index (some i) none = none
same_index (some i) (some j) = if i == j then some i else none

-- `hasInternal[i] = true`
abbrev pub set_true : Option ℕ → List Bool → List Bool
set_true none flags = flags
set_true (some i) [] = []
set_true (some zero) (b ∷ flags) = true ∷ flags
set_true (some (suc i)) (b ∷ flags) = b ∷ set_true (some i) flags

unfoldable pub mark_edges : List Cluster → List Edge → List Bool → List Bool
unfolding cluster_of
mark_edges cs [] flags = flags
mark_edges cs (e ∷ es) flags =
    mark_edges cs es
      (set_true (same_index (cluster_of e.from_module 0 cs) (cluster_of e.to_module 0 cs)) flags)

-- `make([]bool, len(clusters))`
abbrev pub no_flags : List Cluster → List Bool
no_flags [] = []
no_flags (c ∷ cs) = false ∷ no_flags cs

abbrev pub count_true : List Bool → ℕ
count_true [] = 0
count_true (b ∷ flags) = (if b then 1 else 0) + count_true flags

-- IsIncoherentFallback
unfoldable pub is_incoherent_fallback : List Edge → List Cluster → Bool
unfolding mark_edges
is_incoherent_fallback edges [] = false
is_incoherent_fallback edges (c ∷ cs) =
    ltb (count_true (mark_edges (c ∷ cs) edges (no_flags (c ∷ cs))) * 2) (length (c ∷ cs))

-- ApplyCoherenceGuardrail (application/pipeline.go): both results as it leaves them, and whether it fired.
abbrev pub flagged : Classification → ClusteringResult → ClusteringResult
flagged cls cr = record cr {
  low_confidence = if cls.structural_fallback then true else cr.low_confidence;
}

unfoldable pub apply_coherence_guardrail :
    Classification → ClusteringResult → List Edge → Classification × ClusteringResult × Bool
unfolding is_incoherent_fallback
apply_coherence_guardrail cls cr edges =
    if (cls.structural_fallback && (flagged cls cr).low_confidence)
      && is_incoherent_fallback edges cr.clusters
    then (record cls { domain = [] }, record (flagged cls cr) { clusters = [] }, true)
    else (cls, flagged cls cr, false)
