-- ===== src/Migration/Moves/Terms.antt =====
-- Every request keeps the terms of every migration.
use milton_prism.Migration.World.{err, ok, Result}
use milton_prism.Migration.Domain.{pending, Error, Migration}
use milton_prism.Migration.Roadmap.{Sorter}
use milton_prism.Migration.Sequence.{create}
use milton_prism.Migration.Store.{
  adopt_analysis, set_service_blueprint, set_roadmap_enrichment, update_state,
  set_restructuring_roadmap, set_migrability_override, set_migrability_assessment, soft_delete,
}
use milton_prism.Migration.Ports.{Ports}
use milton_prism.Migration.Start.{
  dispatch_analysis, start_with_reuse, start_normal, start_migration, settle_dispatch,
  settle_adoption,
}
use milton_prism.Migration.Restructure.{
  usable_roadmap, generate_restructuring_roadmap, generate_blueprint, enrich_roadmap,
}
use milton_prism.Migration.Approval.{
  approve_checked, override_migrability, assess_migrability, approve_design,
}
use milton_prism.Migration.Publish.{
  detect_path_conflicts, advance_to_pushed, publish_checked, publish_migration,
  get_generation_package,
}
use milton_prism.Migration.Lifecycle.{
  cancel_checked, load_records, create_migration, delete_migration, cancel_migration, get_migration,
}
use milton_prism.Prelude.{ℕ, String, Bool, Option, none, some, List}
use milton_prism.Migration.Keeps.{Keeps-raise, Keeps, keeps_rules}
use milton_prism.Migration.Immutable.{
  Preserves, Preserves-IsFlow, Preserves-IsBlind, Keeps-terms, insert-Preserves, undo-Preserves,
}
use milton_prism.Migration.Moves.Births.{
  Keeps-with_transaction, generate_identifier-Keeps, run-Keeps, owner-Keeps, url-Keeps,
}
use milton_prism.Migration.Moves.Edits.{dispatch-Keeps, push-Keeps}
use milton_prism.Migration.Moves.Notes.{notes_rules}
use milton_prism.Migration.Moves.Starts.{start_rules}

pub get_terms : (p : Ports) (id : ℕ) → Keeps Preserves (get_migration p id)
unfolding get_migration load_records
get_terms p id = search keeps_rules depth 12

pub package_terms : (p : Ports) (id : ℕ) → Keeps Preserves (get_generation_package p id)
unfolding get_generation_package
package_terms p id = search keeps_rules depth 16

pub cancel_terms : (p : Ports) (id : ℕ) → Keeps Preserves (cancel_migration p id)
unfolding cancel_migration cancel_checked update_state
cancel_terms p id = search (keeps_rules, Keeps-terms) depth 12

pub delete_terms : (p : Ports) (id : ℕ) → Keeps Preserves (delete_migration p id)
unfolding delete_migration soft_delete
delete_terms p id = search (keeps_rules, Keeps-terms) depth 12

pub approve_terms :
    (p : Ports) (id : ℕ) (b : Bool) (names : List String)
    → Keeps Preserves (approve_design p id b names)
unfolding approve_design approve_checked update_state
approve_terms p id b names = search (keeps_rules, Keeps-terms, dispatch-Keeps) depth 16

pub assess_terms : (p : Ports) (id : ℕ) (l : String) → Keeps Preserves (assess_migrability p id l)
unfolding assess_migrability set_migrability_assessment
assess_terms p id l = search (keeps_rules, notes_rules, Keeps-terms) depth 16

pub override_terms : (p : Ports) (id : ℕ) (b : Bool) → Keeps Preserves (override_migrability p id b)
unfolding override_migrability set_migrability_override
override_terms p id b = search (keeps_rules, Keeps-terms) depth 16

pub enrich_terms : (p : Ports) (id : ℕ) → Keeps Preserves (enrich_roadmap p id)
unfolding enrich_roadmap usable_roadmap set_roadmap_enrichment
enrich_terms p id = search (keeps_rules, notes_rules, Keeps-terms) depth 24

pub blueprint_terms : (p : Ports) (id : ℕ) → Keeps Preserves (generate_blueprint p id)
unfolding generate_blueprint usable_roadmap set_service_blueprint
blueprint_terms p id = search (keeps_rules, notes_rules, Keeps-terms) depth 24

pub roadmap_terms :
    (s : Sorter) (p : Ports) (id : ℕ) → Keeps Preserves (generate_restructuring_roadmap s p id)
unfolding generate_restructuring_roadmap set_restructuring_roadmap
roadmap_terms s p id = search (keeps_rules, notes_rules, Keeps-terms) depth 24

pub publish_terms :
    (sort_strings : List String → List String) (p : Ports) (id : ℕ) (url token message : String)
    → Keeps Preserves (publish_migration sort_strings p id url token message)
unfolding publish_migration publish_checked advance_to_pushed update_state detect_path_conflicts
publish_terms sort_strings p id url token message =
    search (keeps_rules, Keeps-terms, push-Keeps) depth 24

pub create_terms : (p : Ports) (m : Option Migration) → Keeps Preserves (create_migration p m)
unfolding create_migration create
create_terms p none = Keeps-raise _
create_terms p (some m) =
    search
      (
        keeps_rules, owner-Keeps, url-Keeps, Keeps-with_transaction, undo-Preserves,
        generate_identifier-Keeps, run-Keeps, insert-Preserves,
      )
      depth 20

pub settle_adoption_terms :
    (p : Ports) (id : ℕ) (o : Result (Unit {0})) → Keeps Preserves (settle_adoption p id o)
unfolding settle_adoption update_state
settle_adoption_terms p id (ok u) = record { at = Preserves-IsFlow.stay }
settle_adoption_terms p id (err e) =
    let back : Keeps Preserves (update_state p id pending) = search Keeps-terms in
    record { at = back.at }

pub settle_dispatch_terms :
    (p : Ports) (id : ℕ) (o : Option Error) → Keeps Preserves (settle_dispatch p id o)
unfolding settle_dispatch update_state
settle_dispatch_terms p id none = record { at = Preserves-IsFlow.stay }
settle_dispatch_terms p id (some e) =
    let back : Keeps Preserves (update_state p id pending) = search Keeps-terms in
    record { at = back.at }

pub start_terms : (p : Ports) (id : ℕ) → Keeps Preserves (start_migration p id)
unfolding start_migration start_normal start_with_reuse update_state adopt_analysis
    dispatch_analysis
start_terms p id =
    search (keeps_rules, start_rules, Keeps-terms, settle_adoption_terms, settle_dispatch_terms)
      depth 24
