-- ===== src/Decomposition/Run.antt =====
-- core/worker/decomposition: the stages of a job (application/pipeline.go, Run) and the handler of the task
-- (jobs/decompose_job.go). The graph loader, the infrastructure detector, the clusterer, the workspace and
-- the deriver are ports. Stages 3b and 3c, the digest and the verdict, only write to the log.
use Prim.Native.String.{len, slice}
use milton_prism.Prelude.{
  ℕ, String, Bool, false, not, ◌&&◌, Option, none, some, List, [], ◌∷◌, ◌==◌, if◌then◌else◌, ltb,
  concat,
}
use milton_prism.Migration.Domain.{Error, RestructurePlan}
use milton_prism.Migration.World.{World, Result, ok, err}
use milton_prism.Migration.Ports.{Ports}
use milton_prism.Migration.Workers.{write_plan, mark_design_failed}
use milton_prism.Worker.Prefixes.{Assigned}
use milton_prism.Decomposition.Domain.{
  Edge, Classification, Cluster, ClusteringResult, ServiceCandidate, DerivedContract, DataOwnership,
  domain_subgraph, apply_coherence_guardrail,
}
use milton_prism.Decomposition.Characterize.{Texts, characterize}
use milton_prism.Decomposition.Ownership.{analyze_data_ownership, augment_data_deps}
use milton_prism.Decomposition.Plan.{assemble_plan}
use milton_prism.Decomposition.Artifacts.{DesignArtifact, build_artifacts, upsert_artifacts}

-- Stage 5: whether the workspace can be acquired, and the contract of a cluster, or none where the deriver
-- fails. It is handed the clusters, from which the table map is made.
pub record Deriver : Type 0 where
  pub acquires : Bool
  pub derive : List Cluster → Cluster → Option DerivedContract

-- What a pipeline is wired to; an answer that is `none` is an error. `artifact_fault n` is a failure of the
-- n-th write of an artifact.
pub record Pipeline : Type 0 where
  pub texts : Texts
  pub load : ℕ → Option (List Edge)
  pub detect : List Edge → Option Classification
  pub clusterer : Option (List Edge → Classification → Option ClusteringResult)
  pub has_allocator : Bool
  pub deriver : Option Deriver
  pub plan_writer : Option Ports
  pub artifact_fault : Option (ℕ → Bool)

pub record Job : Type 0 where
  pub migration_id : ℕ
  pub summary_id : ℕ

pub data RunError : Type 0 where
  graph_load infra_detect clustering characterization workspace_acquire : RunError
  plan_write plan_write_no_boundaries : Error → RunError

-- What the worker shares with the rest: the claims of its allocator, the artifacts and the migrations.
pub record State : Type 0 where
  pub assigned : Assigned
  pub artifacts : List DesignArtifact
  pub world : World

abbrev pub Outcome : Type 0
Outcome = Option RunError × State

abbrev pub done : State → Outcome
done s = (none, s)

abbrev pub fails : RunError → State → Outcome
fails e s = (some e, s)

-- The contracts of the clusters for which the deriver does not fail.
unfoldable pub derive_all : (Cluster → Option DerivedContract) → List Cluster → List DerivedContract
derive_all derive [] = []
derive_all derive (c ∷ cs) = elim (derive c) [
  | none ↦ derive_all derive cs
  | some d ↦ d ∷ derive_all derive cs
]

-- `if err := p.planWriter.WritePlan(…); err != nil { return … }`
abbrev pub after_write :
    (Error → RunError) → (State → State) → State → Result (Unit {0}) × World → Outcome
after_write label further s (ok _, w) = (none, further (record s { world = w }))
after_write label further s (err e, w) = (some (label e), record s { world = w })

-- Stage 7b, whose failure is only logged.
unfoldable pub store_artifacts :
    Pipeline
    → ℕ
    → RestructurePlan
    → List DerivedContract
    → DataOwnership
    → List ServiceCandidate
    → State
    → State
unfolding build_artifacts upsert_artifacts
store_artifacts p id plan contracts ownership candidates s = elim p.artifact_fault [
  | none ↦ s
  | some fault ↦ record s {
    artifacts =
        upsert_artifacts fault 0 id (build_artifacts plan contracts ownership candidates)
          s.artifacts;
  }
]

abbrev pub no_ownership : DataOwnership
no_ownership = record {
  shared_database = false;
  cross_service_fks = [];
  operational_couplings = [];
}

-- Stage 6: the candidates with the dependencies of the foreign keys.
unfoldable pub augmented_of : List ServiceCandidate → List DerivedContract → List ServiceCandidate
unfolding analyze_data_ownership augment_data_deps
augmented_of candidates contracts =
    augment_data_deps candidates (analyze_data_ownership candidates contracts).cross_service_fks

-- Stage 7: the plan.
unfoldable pub plan_of :
    (ℕ → String) → ClusteringResult → List ServiceCandidate → List DerivedContract → RestructurePlan
unfolding analyze_data_ownership augmented_of assemble_plan
plan_of decimal cr candidates contracts =
    assemble_plan decimal (augmented_of candidates contracts)
      (analyze_data_ownership candidates contracts) (some cr)

unfoldable pub run_derived :
    Pipeline
    → Ports
    → Job
    → ClusteringResult
    → List ServiceCandidate
    → List DerivedContract
    → State
    → Outcome
unfolding analyze_data_ownership augmented_of plan_of write_plan store_artifacts
run_derived p ports job cr candidates contracts s =
    let plan = plan_of p.texts.format.decimal cr candidates contracts in
    after_write plan_write
      (store_artifacts p job.migration_id plan contracts
        (analyze_data_ownership candidates contracts) (augmented_of candidates contracts))
      s (write_plan ports job.migration_id plan s.world)

unfoldable pub run_contracts :
    Pipeline
    → Job
    → ClusteringResult
    → List ServiceCandidate
    → State
    → List DerivedContract
    → Option Ports
    → Outcome
unfolding run_derived
run_contracts p job cr candidates s contracts none = done s
run_contracts p job cr candidates s contracts (some ports) =
    run_derived p ports job cr candidates contracts s

-- Behind stage 4, where there are candidates: stage 5.
unfoldable pub run_proposed :
    Pipeline → Job → ClusteringResult → List ServiceCandidate → State → Option Deriver → Outcome
unfolding run_contracts derive_all
run_proposed p job cr candidates s none = done s
run_proposed p job cr candidates s (some d) =
    if not d.acquires
    then fails workspace_acquire s
    else run_contracts p job cr candidates s (derive_all (d.derive cr.clusters) cr.clusters)
        p.plan_writer

-- Behind stage 4, where there are none: the plan that says so.
unfoldable pub run_no_boundaries :
    Pipeline → Job → ClusteringResult → State → Option Ports → Outcome
unfolding assemble_plan write_plan
run_no_boundaries p job cr s none = done s
run_no_boundaries p job cr s (some ports) =
    after_write plan_write_no_boundaries (λ t. t) s
      (write_plan ports job.migration_id
        (assemble_plan p.texts.format.decimal [] no_ownership (some cr)) s.world)

unfoldable pub run_characterized :
    Pipeline → Job → ClusteringResult → State → Option (List ServiceCandidate) × Assigned → Outcome
unfolding run_proposed run_no_boundaries
run_characterized p job cr s (none, t) = fails characterization (record s { assigned = t })
run_characterized p job cr s (some [], t) =
    run_no_boundaries p job cr (record s { assigned = t }) p.plan_writer
run_characterized p job cr s (some (k ∷ ks), t) =
    run_proposed p job cr (k ∷ ks) (record s { assigned = t }) p.deriver

-- Stage 4 on the clusters that the guardrail left.
unfoldable pub run_guarded : Pipeline → Job → List Edge → State → ClusteringResult → Outcome
unfolding characterize run_characterized
run_guarded p job edges s cr =
    if not p.has_allocator
    then done s
    else run_characterized p job cr s (characterize p.texts edges cr.clusters s.assigned)

unfoldable pub run_clustered :
    Pipeline → Job → List Edge → Classification → State → Option ClusteringResult → Outcome
unfolding run_guarded apply_coherence_guardrail
run_clustered p job edges cls s none = fails clustering s
run_clustered p job edges cls s (some cr) =
    run_guarded p job edges s (apply_coherence_guardrail cls cr edges).1

-- Stage 3.
unfoldable pub run_wired :
    Pipeline
    → Job
    → List Edge
    → Classification
    → State
    → Option (List Edge → Classification → Option ClusteringResult)
    → Outcome
unfolding run_clustered domain_subgraph
run_wired p job graph cls s none = done s
run_wired p job graph cls s (some cluster) =
    let edges = domain_subgraph graph cls.domain in
    run_clustered p job edges cls s (cluster edges cls)

unfoldable pub run_detected : Pipeline → Job → List Edge → State → Option Classification → Outcome
unfolding run_wired
run_detected p job graph s none = fails infra_detect s
run_detected p job graph s (some cls) = run_wired p job graph cls s p.clusterer

unfoldable pub run_loaded : Pipeline → Job → State → Option (List Edge) → Outcome
unfolding run_detected
run_loaded p job s none = fails graph_load s
run_loaded p job s (some graph) = run_detected p job graph s (p.detect graph)

unfoldable pub run : Pipeline → Job → State → Outcome
unfolding run_loaded
run p job s = run_loaded p job s (p.load job.summary_id)

-- MarkFailed, whose own error the handler only logs.
unfoldable pub mark_failed : ℕ → String → State → Option Ports → State
unfolding mark_design_failed
mark_failed id reason s none = s
mark_failed id reason s (some ports) = record s {
  world = (mark_design_failed ports id reason s.world).1;
}

-- decomposeFailureReason: 200 bytes of the text of the error.
unfoldable pub decompose_failure_reason : String → String
decompose_failure_reason text =
    let short = if ltb 200 (len text) then concat (slice text 0 200) "..." else text in
    concat "Decomposition failed: " (concat short ". You can retry this migration.")

-- ProcessTask: `payload` is absent where it cannot be decoded, `error_text` is the text of an error.
pub record Task : Type 0 where
  pub payload : Option Job
  pub is_last_attempt : Bool
  pub error_text : RunError → String

pub data TaskError : Type 0 where
  skip_retry : TaskError
  run_failed : RunError → TaskError

unfoldable pub handle_error : Pipeline → Task → Job → Outcome → Option TaskError × State
unfolding mark_failed decompose_failure_reason
handle_error p task job (none, s) = (none, s)
handle_error p task job (some e, s) = (
  some (run_failed e),
  if not (job.migration_id == 0) && task.is_last_attempt
      then mark_failed job.migration_id (decompose_failure_reason (task.error_text e)) s
          p.plan_writer
      else s,
)

unfoldable pub process_task : Pipeline → Task → State → Option TaskError × State
unfolding handle_error run
process_task p task s = elim task.payload [
  | none ↦ (some skip_retry, s)
  | some job ↦ handle_error p task job (run p job s)
]
