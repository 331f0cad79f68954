-- ===== src/Generation/Package.antt =====
-- core/worker/generation/infrastructure/adapters/mongo_generation_package_reader.go: the generation
-- package that the worker reads for itself from the migrations and the design artifacts.
use milton_prism.Prelude.{
  true, if◌then◌else◌, false, ℕ, String, Bool, str_eq, Option, none, some, List, [], ◌∷◌, map,
}
use milton_prism.Migration.Domain.{TargetConfig, ProposedService, python, get_services}
use milton_prism.Migration.World.{Doc, World}
use milton_prism.Migration.Ports.{ServiceArtifact}
use milton_prism.Migration.Publish.{GenerationPackage, ServiceSpec}

-- `find_fault`: the migration cannot be read; `artifacts` are the design artifacts, absent where they
-- cannot be read.
pub record Source : Type 0 where
  pub find_fault : Bool
  pub artifacts : Option (List ServiceArtifact)

abbrev pub is_python : Option TargetConfig → Bool
is_python none = false
is_python (some t) = elim t.language [ python ↦ true | _ ↦ false ]

-- `prefixByName` as the worker builds it: the last service of a name wins, a missing key is "".
unfoldable pub prefix_for : List ProposedService → String → String → String
prefix_for [] name seen = seen
prefix_for (s ∷ ss) name seen =
    prefix_for ss name (if str_eq s.name name then s.error_prefix else seen)

-- The specification of one artifact, as the worker's own loop writes it.
unfoldable pub spec_from : List ProposedService → String → ServiceArtifact → ServiceSpec
unfolding prefix_for
spec_from plan prompt a = record {
  name = a.service_name;
  error_prefix = prefix_for plan a.service_name "";
  proto_content = a.proto_content;
  boundary_spec = a.boundary_spec;
  incomplete = a.incomplete;
  incomplete_reason = a.incomplete_reason;
  generator_prompt_ref = prompt;
}

unfoldable pub package_of : ℕ → Doc → List ServiceArtifact → GenerationPackage
unfolding spec_from
package_of id d artifacts =
    let prompt =
      if is_python d.target
      then "docs/prism/milton-prism-python-service-generator-prompt.md"
      else "docs/prism/milton-prism-service-generator-prompt.md" in
    record {
      migration_id = id;
      output_profile = if is_python d.target then "python" else "go";
      services = map (spec_from (get_services d.plan) prompt) artifacts;
    }

-- No artifact is an error.
abbrev pub package_from : ℕ → Doc → Option (List ServiceArtifact) → Option GenerationPackage
package_from id d none = none
package_from id d (some []) = none
package_from id d (some (a ∷ more)) = some (package_of id d (a ∷ more))

unfoldable pub read_package : Source → ℕ → World → Option GenerationPackage
unfolding package_of
read_package source id w = elim (w.docs id) [
  | none ↦ none
  | some d ↦
      if source.find_fault
      then none
      else if d.deleted
      then none
      else package_from id d source.artifacts
]
