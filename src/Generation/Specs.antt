-- ===== src/Generation/Specs.antt =====
-- The specifications of the services as the worker's reader and the service write them.
use milton_prism.Prelude.{
  String, Option, none, some, List, [], ◌∷◌, ◌≡◌, refl, ◌∙◌, inl, inr, Bool-cases, Option-cases,
  map, str_eq, if◌then◌else◌,
}
use milton_prism.Migration.Domain.{ProposedService}
use milton_prism.Migration.Ports.{ServiceArtifact}
use milton_prism.Migration.Publish.{prefix_by_name, service_spec, or_empty}
use milton_prism.Generation.Package.{prefix_for, spec_from}

abbrev or_seen : Option String → String → String
or_seen none seen = seen
or_seen (some prefix) seen = prefix

prefix_for-by_name :
    (plan : List ProposedService) (name seen : String)
    → prefix_for plan name seen ≡ or_seen (prefix_by_name name plan) seen
unfolding prefix_for prefix_by_name
prefix_for-by_name [] name seen = refl
prefix_for-by_name (s ∷ ss) name seen =
    prefix_for-by_name ss name (if str_eq s.name name then s.error_prefix else seen)
    ∙ elim (Option-cases (prefix_by_name name ss)) [
      | inr (prefix, later) ↦ rw later refl
      | inl last ↦ elim (Bool-cases (str_eq s.name name)) [
        | inl mine ↦ rw (last, mine) refl
        | inr other ↦ rw (last, other) refl
      ]
    ]

or_seen-empty : (o : Option String) → or_seen o "" ≡ or_empty o
or_seen-empty none = refl
or_seen-empty (some prefix) = refl

pub spec_same :
    (plan : List ProposedService) (prompt : String) (a : ServiceArtifact)
    → spec_from plan prompt a ≡ service_spec plan prompt a
unfolding spec_from service_spec
spec_same plan prompt a =
    rw
      (
        prefix_for-by_name plan a.service_name "",
        or_seen-empty (prefix_by_name a.service_name plan),
      )
      refl

pub specs_same :
    (plan : List ProposedService) (prompt : String) (xs : List ServiceArtifact)
    → map (spec_from plan prompt) xs ≡ map (service_spec plan prompt) xs
specs_same plan prompt [] = refl
specs_same plan prompt (a ∷ xs) = rw (spec_same plan prompt a, specs_same plan prompt xs) refl
