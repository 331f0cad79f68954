-- ===== src/Migration/Examples.antt =====
-- The theorems of the migration service at concrete migrations, with every port answering.
use milton_prism.Migration.Generated.{group_files, file_artifact}
use milton_prism.Migration.Grouping.{group_files-groups, files_under, files_of}
use milton_prism.Migration.Plan.{build_action_plan}
use milton_prism.Migration.Steps.{build_action_plan-waits, build_action_plan-IsNumbered, Numbered}
use milton_prism.Migration.Races.{
  set_final_state-undoes_cancel, write_plan-undoes_cancel, approve_checked-undoes_cancel,
}
use milton_prism.Migration.Identifiers.{generate_identifier-increases}
use milton_prism.Migration.Gate.{approve_design-accepts, dispatched}
use milton_prism.Migration.Late.{deliver_all-Respects}
use milton_prism.Migration.Conflicts.{Consistent}
use milton_prism.Migration.Agreement.{detect_path_conflicts_iff}
use milton_prism.Migration.Journey.{
  serve_all-IsFinal, serve_all-Follows, handle-error_keeps, serve_all-keeps_terms,
}
use milton_prism.Migration.Immutable.{terms}
use milton_prism.Migration.Sequence.{or_else, increment, generate_identifier}
use milton_prism.Migration.Publish.{detect_path_conflicts}
use milton_prism.Migration.Workers.{
  set_final_state, write_plan, design_failed, analysed, deliver_all,
}
use milton_prism.Migration.Lifecycle.{delete_migration, cancel_migration}
use milton_prism.Migration.Store.{find_doc, get_by_id, command, migration_doc_to_domain}
use milton_prism.Migration.Approval.{
  is_not_migrable, migrability_blocked, approve_checked, approve_design,
}
use milton_prism.Migration.Requests.{
  delete_request, cancel_request, forget, approve_request, Sorting, handle, serve_all, Request,
}
use milton_prism.Prelude.{
  length, All, ◌≤◌, ◌⊎◌, ◌<◌, ◌++◌, ◌↔◌, String, true, false, none, some, List, [], ◌∷◌, ◌≡◌, refl,
  ◌==◌, if◌then◌else◌,
}
use milton_prism.Migration.Domain.{
  ScoreSignal, ActionItem, internal, ready, invalid_state_transition, RestructurePlan, Migration,
  State, awaiting_approval, pushed, generating, cancelled,
}
use milton_prism.Migration.Diagram.{erased, alive, ◌⟶*◌, status}
use milton_prism.Migration.World.{err, World, Doc, ok}
use milton_prism.Migration.Ports.{Ports, GeneratedFile}

abbrev pub quiet : Ports
quiet = record {
  db_fault = λ t. none;
  context_done = λ t. false;
  session_starts = λ t. true;
  identity = none;
  repo_svc = none;
  analysis = none;
  read_artifacts = λ t id. ok [];
  generation_enqueuer = some (λ t id names. none);
  decompose_enqueuer = none;
  read_results = none;
  list_artifacts = λ t id name. ok [];
  migrability_assessor = none;
  roadmap_enricher = none;
  blueprint_generator = none;
}

abbrev unsorted : Sorting
unsorted = record { by_impact = record { sort_desc = λ A key xs. xs }; strings = λ xs. xs }

abbrev two_services : RestructurePlan
two_services = record {
  services = [];
  rationale = "";
  operational_couplings = [];
  is_low_confidence = false;
  no_service_boundaries = false;
  boundaries_explanation = "";
  candidate_groupings = [];
  restructure_recommendations = [];
}

abbrev pub doc_in : State → Doc
doc_in s = record {
  repository_id = 20001;
  repository_url = "https://example.org/monolith.git";
  owner_user_id = 30001;
  source_branch = "main";
  state = s;
  target = none;
  analysis_summary_id = 40001;
  source_analysis_summary_id = 0;
  plan = some two_services;
  assessment = none;
  override = false;
  analysis_reused = false;
  roadmap = none;
  enrichment = none;
  blueprint = none;
  failure_reason = "";
  deleted = false;
}

abbrev pub world_with : State → World
world_with s = record {
  docs = λ j. if 10002 == j then some (doc_in s) else none;
  counter = 10002;
  clock = 0;
  calls = [];
}

abbrev requests : List Request
requests = approve_request 10002 true [] ∷ cancel_request 10002 ∷ delete_request 10002 ∷ []

abbrev waiting : World
waiting = world_with awaiting_approval

serve_all-Follows_example :
    status waiting 10002 ⟶* status (serve_all unsorted quiet requests waiting) 10002
serve_all-Follows_example = serve_all-Follows unsorted quiet requests waiting 10002

serve_all-IsFinal_example :
    (status (serve_all unsorted quiet requests (world_with pushed)) 10002 ≡ alive pushed)
    ⊎ (status (serve_all unsorted quiet requests (world_with pushed)) 10002 ≡ erased)
serve_all-IsFinal_example =
    serve_all-IsFinal unsorted quiet requests (world_with pushed) 10002 pushed refl refl

serve_all-keeps_terms_example :
    (d' : Doc) × ((serve_all unsorted quiet requests waiting).docs 10002 ≡ some d')
    × (terms d' ≡ terms (doc_in awaiting_approval))
serve_all-keeps_terms_example =
    serve_all-keeps_terms unsorted quiet requests waiting 10002 (doc_in awaiting_approval) refl

handle-error_keeps_example :
    waiting.docs ≡ (handle unsorted quiet (delete_request 10002) waiting).1.docs
unfolding handle forget delete_migration get_by_id command find_doc migration_doc_to_domain
handle-error_keeps_example =
    handle-error_keeps unsorted quiet (delete_request 10002) waiting
      (handle unsorted quiet (delete_request 10002) waiting).1 invalid_state_transition refl refl

approve_design-accepts_example :
    (w' : World) × (approve_design quiet 10002 true [] waiting ≡ (
      ok (record (migration_doc_to_domain 10002 (doc_in awaiting_approval)) { state = generating }),
      w',
    ))
    × (w'.docs 10002 ≡ some (doc_in generating))
    × (w'.calls ≡ waiting.calls ++ dispatched quiet 10002 [])
unfolding migration_doc_to_domain migrability_blocked is_not_migrable
approve_design-accepts_example =
    approve_design-accepts quiet 10002 [] waiting (doc_in awaiting_approval) (λ t. refl) refl refl
      refl refl

approve_checked-undoes_cancel_example :
    (u v : World) × (cancelled_view approved_view : Migration) × (cancel_migration quiet 10002
        waiting
      ≡ (ok cancelled_view, u))
    × (status u 10002 ≡ alive cancelled)
    × (approve_checked quiet 10002 true []
          (migration_doc_to_domain 10002 (doc_in awaiting_approval))
          u
        ≡ (ok approved_view, v))
    × (status v 10002 ≡ alive generating)
unfolding migration_doc_to_domain migrability_blocked is_not_migrable
approve_checked-undoes_cancel_example =
    approve_checked-undoes_cancel quiet 10002 [] waiting (doc_in awaiting_approval) (λ t. refl) refl
      refl refl refl

write_plan-undoes_cancel_example :
    (u v : World) × (m : Migration) × (cancel_migration quiet 10002 waiting ≡ (ok m, u))
    × (status u 10002 ≡ alive cancelled)
    × (write_plan quiet 10002 two_services u ≡ (ok tt, v))
    × (v.docs 10002 ≡ some (doc_in awaiting_approval))
write_plan-undoes_cancel_example =
    write_plan-undoes_cancel quiet 10002 two_services waiting (doc_in awaiting_approval) (λ t. refl)
      refl refl refl refl

set_final_state-undoes_cancel_example :
    (u v : World) × (m : Migration) × (cancel_migration quiet 10002 (world_with generating)
      ≡ (ok m, u))
    × (status u 10002 ≡ alive cancelled)
    × (set_final_state quiet 10002 ready u ≡ (ok tt, v))
    × (v.docs 10002 ≡ some (doc_in ready))
set_final_state-undoes_cancel_example =
    set_final_state-undoes_cancel quiet 10002 ready (world_with generating) (doc_in generating)
      (λ t. refl) refl refl refl refl

deliver_all-Respects_example :
    (deliver_all quiet
        (analysed 10002 40002 ∷ design_failed 10002 "late" ∷ [])
        (world_with cancelled)).docs
      10002
    ≡ some (doc_in cancelled)
deliver_all-Respects_example =
    deliver_all-Respects quiet (analysed 10002 40002 ∷ design_failed 10002 "late" ∷ [])
      (world_with cancelled) 10002 (doc_in cancelled) refl refl

abbrev file : String → String → GeneratedFile
file path content = record { service_name = "orders"; path = path; content = content }

abbrev generated : List GeneratedFile
generated =
    record { service_name = "users"; path = "main.go"; content = "1" }
    ∷ file "main.go" "2"
    ∷ record { service_name = "users"; path = "user.go"; content = "3" }
    ∷ []

group_files-groups_example :
    files_under "users" (group_files [] generated)
    ≡ record { path = "main.go"; content = "1" } ∷ record { path = "user.go"; content = "3" } ∷ []
unfolding files_of file_artifact
group_files-groups_example = group_files-groups [] generated "users"

detect_path_conflicts_iff_example :
    (detect_path_conflicts
        (λ xs. xs)
        (file "a.go" "1" ∷ file "b.go" "2" ∷ file "a.go" "1" ∷ [])
        waiting
      ≡ (ok tt, waiting))
    ↔ Consistent (file "a.go" "1" ∷ file "b.go" "2" ∷ file "a.go" "1" ∷ [])
detect_path_conflicts_iff_example =
    detect_path_conflicts_iff (λ xs. xs) (file "a.go" "1" ∷ file "b.go" "2" ∷ file "a.go" "1" ∷ [])
      waiting

generate_identifier-increases_example : 10003 < 10004
unfolding generate_identifier command increment or_else
generate_identifier-increases_example =
    generate_identifier-increases quiet quiet waiting (generate_identifier quiet waiting).1
      (generate_identifier quiet (generate_identifier quiet waiting).1).1 10003 10004 refl refl

abbrev refusing : Ports
refusing = record quiet {
  analysis = some (record {
    run_analysis = λ t repository id owner branch. some internal;
    get_analysis_summary = λ t id. err internal;
  });
}

abbrev signals : List ScoreSignal
signals =
    record { signal = "cluster_count"; penalty = 10; detail = "1 cluster" }
    ∷ record { signal = "domain_presence"; penalty = 5; detail = "0 domain modules" }
    ∷ []

build_action_plan-IsNumbered_example :
    Numbered 0 (build_action_plan unsorted.by_impact signals ("http" ∷ []))
build_action_plan-IsNumbered_example =
    build_action_plan-IsNumbered unsorted.by_impact signals ("http" ∷ [])

build_action_plan-waits_example :
    All
      (λ (x : ActionItem).
        x.depends_on_step ≤ length (build_action_plan unsorted.by_impact signals ("http" ∷ [])))
      (build_action_plan unsorted.by_impact signals ("http" ∷ []))
build_action_plan-waits_example =
    build_action_plan-waits unsorted.by_impact (λ P es h. h) signals ("http" ∷ [])
