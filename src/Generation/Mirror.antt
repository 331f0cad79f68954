-- ===== src/Generation/Mirror.antt =====
-- The worker's own reader of the package and the service's request give the same package.
use milton_prism.Generation.Specs.{specs_same}
use milton_prism.Migration.Store.{migration_doc_to_domain}
use milton_prism.Prelude.{
  inl, inr, Bool-cases, ◌+◌, if◌then◌else◌, ℕ, String, Bool, true, false, Option, none, some, List,
  ◌∷◌, ◌≡◌, refl, map, ◌==◌,
}
use milton_prism.Migration.Domain.{
  invalid_state_transition, state_number, rust, unset, Language, TargetConfig, python, go,
  generating, get_services,
}
use milton_prism.Migration.World.{err, map_error, ◌>>◌, ◌>>=◌, Doc, World, ok}
use milton_prism.Migration.Ports.{Ports, ServiceArtifact}
use milton_prism.Migration.Healthy.{IsHealthy, read_ok}
use milton_prism.Migration.Publish.{
  GenerationPackage, get_generation_package, service_spec, output_profile_label,
  generator_prompt_ref,
}
use milton_prism.Generation.Package.{package_of, read_package, is_python}

abbrev python_prompt : String
python_prompt = "docs/prism/milton-prism-python-service-generator-prompt.md"

abbrev go_prompt : String
go_prompt = "docs/prism/milton-prism-service-generator-prompt.md"

-- The profile and the prompt as both readers choose them.
abbrev Agree : String → Bool → Type 0
Agree label b =
    (label ≡ (if b then "python" else "go"))
    × (generator_prompt_ref label ≡ (if b then python_prompt else go_prompt))

agree_by :
    (l : Language)
    → Agree (elim l [ python ↦ "python" | _ ↦ "go" ]) (elim l [ python ↦ true | _ ↦ false ])
unfolding generator_prompt_ref
agree_by unset = (refl, refl)
agree_by go = (refl, refl)
agree_by rust = (refl, refl)
agree_by python = (refl, refl)

agree : (t : Option TargetConfig) → Agree (output_profile_label t) (is_python t)
unfolding output_profile_label generator_prompt_ref
agree none = (refl, refl)
agree (some t) = agree_by t.language

module _ (p : Ports) (id : ℕ) (w : World) (d : Doc) (a : ServiceArtifact)
    (more : List ServiceArtifact) where
  given : String → String → GenerationPackage
  given profile prompt = record {
    migration_id = id;
    output_profile = profile;
    services = map (service_spec (get_services d.plan) prompt) (a ∷ more);
  }

  same_package : (x x' y y' : String) → x ≡ x' → y ≡ y' → ok (given x y) ≡ ok (given x' y')
  same_package x x' y y' e f = cc (e, f)

  read_by_service :
      IsHealthy p
      → (id == 0) ≡ false
      → w.docs id ≡ some d
      → d.deleted ≡ false
      → p.read_artifacts (w.clock + 1) id ≡ ok (a ∷ more)
      → (get_generation_package p id w).0 ≡ (
          if state_number d.state == state_number generating
          then ok (package_of id d (a ∷ more))
          else err invalid_state_transition)
  unfolding get_generation_package package_of given migration_doc_to_domain
  read_by_service h z e l r = elim (Bool-cases (state_number d.state == state_number generating)) [
    | inr elsewhere ↦ rw (z, read_ok p id w d h e l, ◌>>=◌) (rw (elsewhere, ◌>>=◌, ◌>>◌) refl)
    | inl g ↦
        rw
          (
            z,
            read_ok p id w d h e l,
            ◌>>=◌,
            specs_same (get_services d.plan)
                (if is_python d.target then python_prompt else go_prompt) (a ∷ more),
          )
          (rw (g, r, ◌>>=◌, ◌>>◌, map_error)
            (same_package (output_profile_label d.target)
              (if is_python d.target then "python" else "go")
              (generator_prompt_ref (output_profile_label d.target))
              (if is_python d.target then python_prompt else go_prompt) (agree d.target).0
              (agree d.target).1))
  ]

  -- For a live migration that has design artifacts, and while the database answers, the worker's reader
  -- gives a package in every state; GetGenerationPackage gives the same one in GENERATING, and refuses
  -- with an invalid transition in any other state.
  pub read_package-agrees :
      IsHealthy p
      → (id == 0) ≡ false
      → w.docs id ≡ some d
      → d.deleted ≡ false
      → p.read_artifacts (w.clock + 1) id ≡ ok (a ∷ more)
      → (pkg : GenerationPackage) × (read_package
            (record { find_fault = false; artifacts = some (a ∷ more) })
            id
            w
          ≡ some pkg)
        × ((get_generation_package p id w).0 ≡ (
            if state_number d.state == state_number generating
            then ok pkg
            else err invalid_state_transition))
  unfolding read_package
  read_package-agrees h z e l r =
      (package_of id d (a ∷ more), rw (e, read_package, l) refl, read_by_service h z e l r)
