-- ===== src/Migration/Generated.antt =====
-- core/services/migration/application/service.go: GetGenerationArtifacts, the generated files of a
-- migration by service.
use milton_prism.Prelude.{
  false, ℕ, String, not, Option, none, some, List, [], ◌∷◌, ◌++◌, map, ◌==◌, if◌then◌else◌, str_eq,
}
use milton_prism.Prelude.{sort_strings}
use milton_prism.Migration.Domain.{GenerationRecord, missing_identifier, wrapped}
use milton_prism.Migration.World.{
  M, Result, ok, err, pure, ◌>>=◌, ◌>>◌, guard, if_wired, map_error, ask, from_result,
}
use milton_prism.Migration.Ports.{Ports, GeneratedFile}
use milton_prism.Migration.Publish.{or_empty}
use milton_prism.Migration.Store.{get_by_id}

pub record FileArtifact : Type 0 where
  pub path : String
  pub content : String

pub record ServiceGenerationArtifacts : Type 0 where
  pub service_name : String
  pub files : List FileArtifact
  pub agent_raw_result : String

-- An entry of `byService`.
pub record ServiceFiles : Type 0 where
  pub service_name : String
  pub files : List FileArtifact

unfoldable pub file_artifact : GeneratedFile → FileArtifact
file_artifact f = record { path = f.path; content = f.content }

-- `rawResults[name]`: the last record of that name wins.
unfoldable pub raw_result : String → List GenerationRecord → Option String
raw_result name [] = none
raw_result name (r ∷ rs) = elim (raw_result name rs) [
  | some text ↦ some text
  | none ↦ if str_eq r.service_name name then some r.agent_raw_result else none
]

-- The entries of `byService` stand in the order in which their names were first seen, which is `order`.
unfoldable pub add_service_file : GeneratedFile → List ServiceFiles → List ServiceFiles
unfolding file_artifact
add_service_file f [] = record { service_name = f.service_name; files = file_artifact f ∷ [] } ∷ []
add_service_file f (g ∷ gs) =
    let rest = add_service_file f gs in
    if str_eq g.service_name f.service_name
    then record g { files = g.files ++ (file_artifact f ∷ []) } ∷ gs
    else g ∷ rest

unfoldable pub by_service : List ServiceFiles → List GeneratedFile → List ServiceFiles
unfolding add_service_file
by_service gs [] = gs
by_service gs (f ∷ fs) = by_service (add_service_file f gs) fs

unfoldable pub names_of : List ServiceFiles → List String
names_of [] = []
names_of (g ∷ gs) = g.service_name ∷ names_of gs

-- `byService[name]`
unfoldable pub files_for : String → List ServiceFiles → List FileArtifact
files_for name [] = []
files_for name (g ∷ gs) = if str_eq g.service_name name then g.files else files_for name gs

unfoldable pub service_artifacts :
    List GenerationRecord → List ServiceFiles → String → ServiceGenerationArtifacts
unfolding files_for raw_result
service_artifacts records gs name = record {
  service_name = name;
  files = files_for name gs;
  agent_raw_result = or_empty (raw_result name records);
}

unfoldable pub group_files :
    List GenerationRecord → List GeneratedFile → List ServiceGenerationArtifacts
unfolding by_service names_of service_artifacts
group_files records files =
    let gs = by_service [] files in map (service_artifacts records gs) (sort_strings (names_of gs))

-- An error of the second reader is dropped.
unfoldable pub records_or_none : Result (List GenerationRecord) → List GenerationRecord
records_or_none (ok rs) = rs
records_or_none (err e) = []

unfoldable pub get_generation_artifacts : Ports → ℕ → String → M (List ServiceGenerationArtifacts)
unfolding get_by_id records_or_none group_files
get_generation_artifacts p id service_name = do
  guard (not (id == 0)) missing_identifier
  m ← get_by_id p id false
  answer ← ask (λ t. p.list_artifacts t id service_name)
  files ← map_error (wrapped "generation-artifacts: read files") (from_result answer)
  records ←
      if_wired p.read_results
        (λ read. ask (λ t. read t id) >>= λ read_answer. pure (records_or_none read_answer))
        (pure [])
  pure (group_files records files)
