-- ===== src/Migration/Publish.antt =====
-- core/services/migration/application/service.go: the package handed to the generators, and the
-- publication of what they made.
use milton_prism.Prelude.{
  ℕ, String, Bool, true, false, not, ◌||◌, Option, none, some, List, [], ◌∷◌, ◌++◌, map, ◌==◌,
  if◌then◌else◌, str_eq, is_empty, concat, join,
}
use milton_prism.Migration.Domain.{
  python, TargetConfig, ProposedService, generating, ready, pushed, missing_identifier,
  missing_payload, invalid_state_transition, no_artifacts, artifact_conflict, internal, wrapped,
  panic, Migration, get_services, state_number,
}
use milton_prism.Migration.World.{
  M, pure, raise, ◌>>=◌, ◌>>◌, guard, branch, if_wired, map_error, ask, from_result, record_call,
  push_files,
}
use milton_prism.Migration.Ports.{Ports, PushFile, GeneratedFile, ServiceArtifact}
use milton_prism.Migration.Store.{get_by_id, update_state}

unfoldable pub output_profile_label : Option TargetConfig → String
output_profile_label none = "go"
output_profile_label (some t) = elim t.language [ python ↦ "python" | _ ↦ "go" ]

unfoldable pub generator_prompt_ref : String → String
generator_prompt_ref profile =
    if str_eq profile "python"
    then "docs/prism/milton-prism-python-service-generator-prompt.md"
    else "docs/prism/milton-prism-service-generator-prompt.md"

pub record ServiceSpec : Type 0 where
  pub name : String
  pub error_prefix : String
  pub proto_content : String
  pub boundary_spec : String
  pub incomplete : Bool
  pub incomplete_reason : String
  pub generator_prompt_ref : String

pub record GenerationPackage : Type 0 where
  pub migration_id : ℕ
  pub output_profile : String
  pub services : List ServiceSpec

-- `prefixByName[name]`: the last service of that name wins; a missing key is "".
unfoldable pub prefix_by_name : String → List ProposedService → Option String
prefix_by_name name [] = none
prefix_by_name name (s ∷ ss) = elim (prefix_by_name name ss) [
  | some p ↦ some p
  | none ↦ if str_eq s.name name then some s.error_prefix else none
]

abbrev pub or_empty : Option String → String
or_empty none = ""
or_empty (some s) = s

unfoldable pub service_spec : List ProposedService → String → ServiceArtifact → ServiceSpec
unfolding prefix_by_name
service_spec plan prompt a = record {
  name = a.service_name;
  error_prefix = or_empty (prefix_by_name a.service_name plan);
  proto_content = a.proto_content;
  boundary_spec = a.boundary_spec;
  incomplete = a.incomplete;
  incomplete_reason = a.incomplete_reason;
  generator_prompt_ref = prompt;
}

abbrev pub is_nil {ℓ} : {A : Type ℓ} → List A → Bool
is_nil [] = true
is_nil (_ ∷ _) = false

unfoldable pub get_generation_package : Ports → ℕ → M GenerationPackage
unfolding get_by_id service_spec output_profile_label generator_prompt_ref
get_generation_package p id = do
  guard (not (id == 0)) missing_identifier
  m ← get_by_id p id false
  guard (state_number m.state == state_number generating) invalid_state_transition
  answer ← ask (λ t. p.read_artifacts t id)
  artifacts ← map_error (wrapped "generation-package: read artifacts") (from_result answer)
  guard (not (is_nil artifacts)) (wrapped "no design artifacts" internal)
  let profile = output_profile_label m.target
  pure (record {
    migration_id = id;
    output_profile = profile;
    services = map (service_spec (get_services m.plan) (generator_prompt_ref profile)) artifacts;
  })

-- detectPathConflicts: what is known of a path is the content seen first and the services that
-- differ from it. The map's entries stand in the order in which their paths were first seen.
pub record PathEntry : Type 0 where
  pub path : String
  pub content : String
  pub services : List String

abbrev pub new_entry : GeneratedFile → PathEntry
new_entry f = record { path = f.path; content = f.content; services = f.service_name ∷ [] }

abbrev pub merge_entry : GeneratedFile → PathEntry → PathEntry
merge_entry f e =
    if str_eq f.content e.content
    then e
    else record e { services = e.services ++ (f.service_name ∷ []) }

unfoldable pub add_file : GeneratedFile → List PathEntry → List PathEntry
add_file f [] = new_entry f ∷ []
add_file f (e ∷ es) = if str_eq e.path f.path then merge_entry f e ∷ es else e ∷ add_file f es

unfoldable pub index_files : List PathEntry → List GeneratedFile → List PathEntry
unfolding add_file
index_files es [] = es
index_files es (f ∷ fs) = index_files (add_file f es) fs

abbrev pub has_conflict : List String → Bool
has_conflict (_ ∷ _ ∷ _) = true
has_conflict _ = false

unfoldable pub conflicting : List PathEntry → List PathEntry
conflicting [] = []
conflicting (e ∷ es) =
    let rest = conflicting es in if has_conflict e.services then e ∷ rest else rest

-- `sort_strings` is the standard library's `sort.Strings`.
unfoldable pub describe : (List String → List String) → PathEntry → String
describe sort_strings e =
    concat e.path (concat " (services: " (concat (join (sort_strings e.services) ", ") ")"))

unfoldable pub detect_path_conflicts : (List String → List String) → List GeneratedFile → M Unit
unfolding index_files conflicting describe
detect_path_conflicts sort_strings files =
    let found = conflicting (index_files [] files) in
    guard (is_nil found)
      (artifact_conflict (join (sort_strings (map (describe sort_strings) found)) "; "))

abbrev pub push_file : GeneratedFile → PushFile
push_file f = record { path = f.path; content = f.content }

unfoldable pub push : Ports → String → String → String → List GeneratedFile → M String
push p target_url write_token message files =
    if_wired p.repo_svc
      (λ client. do
        record_call (push_files target_url write_token message (map (λ f. f.path) files))
        answer ← ask (λ t. client.push_files t target_url write_token (map push_file files) message)
        from_result answer)
      (raise panic)

-- `if m.GetState() != Pushed { UpdateState … }`
unfoldable pub advance_to_pushed : Ports → ℕ → Migration → M Migration
unfolding update_state
advance_to_pushed p id m =
    branch (state_number m.state == state_number pushed) (pure m)
      (do update_state p id pushed; pure (record m { state = pushed }))

abbrev pub is_publishable : Migration → Bool
is_publishable m =
    (state_number m.state == state_number ready) || (state_number m.state == state_number pushed)

-- PublishMigration behind its read.
unfoldable pub publish_checked :
    (List String → List String)
    → Ports
    → ℕ
    → String
    → String
    → String
    → Migration
    → M (Migration × String)
unfolding detect_path_conflicts push advance_to_pushed
publish_checked sort_strings p id target_url write_token message m = do
  guard (is_publishable m) invalid_state_transition
  answer ← ask (λ t. p.list_artifacts t id "")
  files ← map_error (wrapped "publish: read artifacts") (from_result answer)
  guard (not (is_nil files)) no_artifacts
  detect_path_conflicts sort_strings files
  pushed_branch ← push p target_url write_token message files
  m' ← advance_to_pushed p id m
  pure (m', pushed_branch)

unfoldable pub publish_migration :
    (List String → List String) → Ports → ℕ → String → String → String → M (Migration × String)
unfolding get_by_id publish_checked
publish_migration sort_strings p id target_url write_token message = do
  guard (not (id == 0)) missing_identifier
  guard (not (is_empty target_url)) missing_payload
  m ← get_by_id p id false
  publish_checked sort_strings p id target_url write_token message m
