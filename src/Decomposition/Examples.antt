-- ===== src/Decomposition/Examples.antt =====
-- The theorems of the decomposition at a repository of two blueprints.
use milton_prism.Decomposition.Classes.{detect-classes, is_end, classes_of}
use milton_prism.Decomposition.Detector.{detect}
use milton_prism.Decomposition.Partition.{llm_cluster-IsPartition, IsPartition}
use milton_prism.Decomposition.Clusterers.{accept, llm_cluster}
use milton_prism.Decomposition.Stale.{store_artifacts-keeps_stale}
use milton_prism.Generation.Examples.{slow, environment_with}
use milton_prism.Generation.Service.{service_task}
use milton_prism.Decomposition.Unfinished.{build_artifacts-IsRefused, IsRefusal}
use milton_prism.Generation.Package.{spec_from, package_of}
use milton_prism.Decomposition.Failures.{process_task-settles, after_failure, run-error_keeps}
use milton_prism.Migration.Publish.{ServiceSpec}
use milton_prism.Migration.Ports.{ServiceArtifact}
use milton_prism.Decomposition.Artifacts.{
  service_artifact, read_artifacts, find_contract, build_artifacts,
}
use milton_prism.Prelude.{
  ◌==◌, if◌then◌else◌, eq_iff, subst, str_eq, or_cases, any, map, ℕ, String, true, false, Option,
  none, some, List, [], ◌∷◌, ◌≡◌, refl, inl, inr, Any, All, get_elem?, ◌↔◌, ◌<◌, ◌*◌, length,
}
use milton_prism.Migration.Domain.{CandidateGrouping, designing, RestructurePlan, ProposedService}
use milton_prism.Migration.Examples.{quiet, doc_in, world_with}
use milton_prism.Worker.Prefixes.{Assigned}
use milton_prism.Decomposition.Domain.{
  is_incoherent_fallback, Edge, Classification, Cluster, ClusteringResult, ServiceCandidate,
  DerivedContract, is_in, domain_subgraph, apply_coherence_guardrail,
}
use milton_prism.Decomposition.Characterize.{Texts, name_of, characterize}
use milton_prism.Decomposition.Run.{
  derive_all, no_ownership, store_artifacts, run_loaded, Pipeline, Job, State, plan_of, run,
  graph_load, Task, process_task, run_failed,
}
use milton_prism.Decomposition.Dependence.{DependsOn}
use milton_prism.Decomposition.Outcome.{Proposed, run-Proposed, wired}
use milton_prism.Decomposition.Refinement.{plan_of-Refines}
use milton_prism.Decomposition.Codes.{plan_of-IsUnique}
use milton_prism.Decomposition.Coherence.{is_incoherent_fallback-counts, count_cohesive}

abbrev plain : Texts
plain = record { to_lower = λ s. s; format = record { to_upper = λ s. s; decimal = λ n. "2" } }

abbrev edge : String → String → Edge
edge a b = record { from_module = a; to_module = b }

-- A model of the articles imports one of the users, and so does a view.
abbrev edges : List Edge
edges =
    edge "conduit.articles.models" "conduit.users.models"
    ∷ edge "conduit.articles.views" "conduit.users.models"
    ∷ edge "conduit.articles.views" "conduit.articles.models"
    ∷ []

abbrev articles : Cluster
articles = record {
  blueprint_group = "conduit.articles";
  modules = "conduit.articles.models" ∷ "conduit.articles.views" ∷ [];
}

abbrev users : Cluster
users = record { blueprint_group = "conduit.users"; modules = "conduit.users.models" ∷ [] }

abbrev clusters : List Cluster
clusters = articles ∷ users ∷ []

abbrev clustered : ClusteringResult
clustered = record {
  clusters = clusters;
  low_confidence = false;
  candidate_groupings = [];
  restructure_recs = [];
}

-- The profile of a user holds a foreign key to the articles.
abbrev contracts : List DerivedContract
contracts =
    record {
      service_name = "users";
      proto_content = "";
      messages =
          record {
            name = "Profile";
            fields =
                record {
                  name = "favourite";
                  is_cross_fk = true;
                  ref_table = "article";
                  ref_service = "articles";
                }
                ∷ [];
          }
          ∷ [];
      incomplete = false;
      incomplete_reason = "";
    }
    ∷ []

abbrev or_nil : Option (List ServiceCandidate) → List ServiceCandidate
or_nil none = []
or_nil (some ks) = ks

stage_4 : Option (List ServiceCandidate) × Assigned
unfolding characterize
stage_4 = characterize plain edges clusters []

candidates : List ServiceCandidate
unfolding stage_4
candidates = or_nil stage_4.0

characterized : characterize plain edges clusters [] ≡ (some candidates, stage_4.1)
unfolding characterize candidates stage_4
characterized = refl

plan_of-Refines_example :
    (s : ProposedService) × (get_elem?
        (plan_of (λ n. "2") clustered candidates contracts).services
        0
      ≡ some s)
    × (s.name ≡ name_of plain articles)
    × ((d : String)
        → (is_in d s.inter_service_deps ≡ true)
          ↔ DependsOn plain edges clusters contracts (name_of plain articles) d)
unfolding characterize
plan_of-Refines_example =
    plan_of-Refines plain edges clusters contracts clustered [] stage_4.1 candidates characterized 0
      articles refl refl (λ n. "2")

-- What it comes to: the articles depend on the users.
articles_deps :
    map
      (λ (s : ProposedService). s.inter_service_deps)
      (plan_of (λ n. "2") clustered candidates contracts).services
    ≡ ("users" ∷ []) ∷ ("articles" ∷ []) ∷ []
unfolding plan_of candidates stage_4 characterize
articles_deps = refl

apart :
    (m : String)
    → is_in m articles.modules ≡ true
    → any (λ (c : Cluster). is_in m c.modules) (users ∷ []) ≡ false
apart m h = elim (or_cases (str_eq "conduit.articles.models" m) _ h) [
  | inl e ↦
      subst (λ (n : String). any (λ (c : Cluster). is_in n c.modules) (users ∷ []) ≡ false)
        ((eq_iff "conduit.articles.models" m).0 e) refl
  | inr k ↦ elim (or_cases (str_eq "conduit.articles.views" m) _ k) [
    | inl e ↦
        subst (λ (n : String). any (λ (c : Cluster). is_in n c.modules) (users ∷ []) ≡ false)
          ((eq_iff "conduit.articles.views" m).0 e) refl
    | inr none_left ↦ cc
  ]
]

is_incoherent_fallback-counts_example :
    (is_incoherent_fallback edges clusters ≡ true)
    ↔ (count_cohesive edges clusters * 2 < length clusters)
is_incoherent_fallback-counts_example =
    is_incoherent_fallback-counts edges clusters (apart, ((λ m h. refl), tt))

-- Two blueprints that end alike: their services share the name and the prefix.
abbrev twins : List Cluster
twins =
    users ∷ record { blueprint_group = "legacy.users"; modules = "legacy.users.models" ∷ [] } ∷ []

twin_stage : Option (List ServiceCandidate) × Assigned
unfolding characterize
twin_stage = characterize plain edges twins []

twin_candidates : List ServiceCandidate
unfolding twin_stage
twin_candidates = or_nil twin_stage.0

abbrev twin_service : ProposedService
twin_service = record {
  name = "users";
  error_prefix = "use";
  owned_resources = "conduit.users.models" ∷ [];
  inter_service_deps = [];
  cross_service_fks = [];
}

plan_of-IsUnique_example : twin_service.name ≡ twin_service.name
unfolding characterize twin_candidates twin_stage plan_of
plan_of-IsUnique_example =
    plan_of-IsUnique plain edges twins [] clustered [] twin_stage.1 twin_candidates (λ n. "2") 0 1
      twin_service (record twin_service { owned_resources = "legacy.users.models" ∷ [] }) refl refl
      refl refl

abbrev sorted_out : Classification
sorted_out = record {
  infra = [];
  domain = "conduit.articles.models" ∷ "conduit.articles.views" ∷ "conduit.users.models" ∷ [];
  tests = [];
  structural_fallback = false;
}

abbrev job : Job
job = record { migration_id = 10002; summary_id = 7 }

abbrev before : State
before = record { assigned = []; artifacts = []; world = world_with designing }

abbrev find_in : List DerivedContract → Cluster → Option DerivedContract
find_in [] c = none
find_in (d ∷ ds) c = some d

run-Proposed_example :
    Proposed plain
      (λ id. some edges)
      (λ g. some sorted_out)
      (λ g c. some clustered)
      (λ cs. find_in contracts)
      quiet
      (λ n. false)
      job
      (plan_of (λ n. "2") clustered candidates (derive_all (find_in contracts) clusters))
      (doc_in designing)
      before
      (run
        (wired plain
          (λ id. some edges)
          (λ g. some sorted_out)
          (λ g c. some clustered)
          (λ cs. find_in contracts)
          quiet
          (λ n. false))
        job
        before)
unfolding domain_subgraph apply_coherence_guardrail characterize candidates stage_4
run-Proposed_example =
    run-Proposed plain (λ id. some edges) (λ g. some sorted_out) (λ g c. some clustered)
      (λ cs. find_in contracts) quiet (λ n. false) job before (doc_in designing) (λ t. refl) refl
      refl edges sorted_out clustered clustered candidates stage_4.1 refl refl refl refl refl

-- A summary that cannot be loaded.
abbrev unloaded : Pipeline
unloaded =
    record (wired plain (λ id. some edges) (λ g. some sorted_out) (λ g c. some clustered)
      (λ cs. find_in contracts) quiet (λ n. false)) { load = λ id. none }

run-error_keeps_example :
    ((run unloaded job before).1.artifacts ≡ [])
    × ((j : ℕ) → (run unloaded job before).1.world.docs j ≡ (world_with designing).docs j)
unfolding run run_loaded
run-error_keeps_example = run-error_keeps unloaded job before graph_load refl

abbrev last_task : Task
last_task = record { payload = some job; is_last_attempt = true; error_text = λ e. "no graph" }

process_task-settles_example :
    ((process_task unloaded last_task before).0 ≡ some (run_failed graph_load))
    × ((process_task unloaded last_task before).1.world.docs 10002
        ≡ some (after_failure last_task job graph_load (doc_in designing)))
unfolding run run_loaded
process_task-settles_example =
    process_task-settles unloaded true (λ e. "no graph") job quiet before (doc_in designing)
      graph_load refl (λ t. refl) refl refl refl

abbrev small_plan : RestructurePlan
small_plan = record {
  services = record twin_service { name = "articles" } ∷ [];
  rationale = "";
  operational_couplings = [];
  is_low_confidence = false;
  no_service_boundaries = false;
  boundaries_explanation = "";
  candidate_groupings = [];
  restructure_recommendations = [];
}

build_artifacts-IsRefused_example : All IsRefusal (
    service_task (environment_with slow) 0 10002 "go" [] (
      spec_from small_plan.services ""
        (service_artifact contracts no_ownership [] (record twin_service { name = "articles" }))))
unfolding build_artifacts find_contract
build_artifacts-IsRefused_example =
    build_artifacts-IsRefused small_plan contracts no_ownership [] 0
      (service_artifact contracts no_ownership [] (record twin_service { name = "articles" }))
      (environment_with slow) 0 10002 "go" "" [] refl tt

abbrev old_artifact : ServiceArtifact
old_artifact = record {
  service_name = "billing";
  proto_content = "";
  boundary_spec = "";
  incomplete = false;
  incomplete_reason = "";
}

abbrev before_again : State
before_again = record before {
  artifacts = record { migration_id = 10002; artifact = old_artifact } ∷ [];
}

store_artifacts-keeps_stale_example :
    Any
      (λ (spec : ServiceSpec). (spec.name ≡ "billing") × (spec.error_prefix ≡ ""))
      (package_of 10002
        (record (doc_in designing) { plan = some small_plan })
        (read_artifacts 10002
          (store_artifacts unloaded 10002 small_plan contracts no_ownership []
            before_again).artifacts)).services
store_artifacts-keeps_stale_example =
    store_artifacts-keeps_stale unloaded 10002 small_plan contracts no_ownership [] before_again
      old_artifact (record (doc_in designing) { plan = some small_plan }) (inl (refl, refl))
      ((λ e. cc ((eq_iff "articles" "billing").1 e)), tt) refl

-- The model first makes up a module, and then does not.
abbrev grouping : List String → CandidateGrouping
grouping modules = record {
  name = "users";
  modules = modules;
  responsibilities = [];
  confidence = "HIGH";
}

abbrev answer : ℕ → Option (List CandidateGrouping)
answer attempt = some (
    (if attempt == 0 then grouping ("made.up" ∷ []) else grouping ("conduit.users.models" ∷ []))
    ∷ [])

llm_cluster-IsPartition_example :
    IsPartition ("conduit.users.models" ∷ []) (accept (grouping ("conduit.users.models" ∷ []) ∷ []))
unfolding llm_cluster
llm_cluster-IsPartition_example =
    llm_cluster-IsPartition ("conduit.users.models" ∷ []) answer
      (accept (grouping ("conduit.users.models" ∷ []) ∷ [])) refl

detect-classes_example :
    classes_of "conduit.articles.views" (detect edges)
    ≡ (if any (is_end "conduit.articles.views") edges then 1 else 0)
detect-classes_example = detect-classes edges "conduit.articles.views"
