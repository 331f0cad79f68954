-- ===== src/Migration/Moves/Failures.antt =====
-- Each request but StartMigration either succeeds or leaves the collection as it was.
use milton_prism.Migration.Moves.Edits.{push-Keeps}
use milton_prism.Migration.Roadmap.{Sorter}
use milton_prism.Migration.Moves.Notes.{notes_rules}
use milton_prism.Migration.Domain.{Roadmap, Migration}
use milton_prism.Migration.Restructure.{
  generate_restructuring_roadmap, generate_blueprint, enrich_roadmap, usable_roadmap,
}
use milton_prism.Migration.Publish.{
  publish_checked, publish_migration, detect_path_conflicts, advance_to_pushed,
  get_generation_package,
}
use milton_prism.Migration.Store.{
  set_restructuring_roadmap, set_service_blueprint, set_roadmap_enrichment,
  set_migrability_override, set_migrability_assessment, update_state, soft_delete,
}
use milton_prism.Migration.Approval.{
  override_migrability, assess_migrability, approve_checked, approve_design, dispatch_generation,
}
use milton_prism.Migration.Lifecycle.{
  cancel_checked, load_records, delete_migration, cancel_migration, get_migration,
}
use milton_prism.Prelude.{Option, ℕ, String, Bool, List}
use milton_prism.Migration.Ports.{GeneratedFile, Ports}
use milton_prism.Migration.Keeps.{
  Keeps-from_result, Keeps-map_error, Keeps-ask, Keeps, Keeps-get_by_id, Keeps-guard, keeps_rules,
}
use milton_prism.Migration.Under.{SameDocs, SameDocs-IsFlow}
use milton_prism.Migration.Atomic.{
  Atomic-then, Atomic-after, Sure-if_wired, Sure-branch, Sure-bind, Sure-record_call, Sure-ask,
  Sure-pure, Atomic-Keeps, Sure, Atomic, atomic_rules,
}

pub get-Atomic : (p : Ports) (id : ℕ) → Atomic (get_migration p id)
unfolding get_migration load_records
get-Atomic p id = Atomic-Keeps (get_migration p id) (search keeps_rules depth 12)

pub cancel-Atomic : (p : Ports) (id : ℕ) → Atomic (cancel_migration p id)
unfolding cancel_migration cancel_checked update_state
cancel-Atomic p id = search (atomic_rules, Keeps-guard, Keeps-get_by_id) depth 12

pub delete-Atomic : (p : Ports) (id : ℕ) → Atomic (delete_migration p id)
unfolding delete_migration soft_delete
delete-Atomic p id = search (atomic_rules, Keeps-guard, Keeps-get_by_id) depth 12

dispatch-Sure :
    (p : Ports) (id : ℕ) (b : Bool) (names : List String) → Sure (dispatch_generation p id b names)
unfolding dispatch_generation
dispatch-Sure p id b names =
    search (Sure-pure, Sure-ask, Sure-record_call, Sure-bind, Sure-branch, Sure-if_wired) depth 12

pub approve-Atomic :
    (p : Ports) (id : ℕ) (b : Bool) (names : List String) → Atomic (approve_design p id b names)
unfolding approve_design approve_checked update_state
approve-Atomic p id b names =
    search (atomic_rules, Keeps-guard, Keeps-get_by_id, dispatch-Sure) depth 12

pub package-Atomic : (p : Ports) (id : ℕ) → Atomic (get_generation_package p id)
unfolding get_generation_package
package-Atomic p id = Atomic-Keeps (get_generation_package p id) (search keeps_rules depth 16)

pub advance-Atomic : (p : Ports) (id : ℕ) (m : Migration) → Atomic (advance_to_pushed p id m)
unfolding advance_to_pushed update_state
advance-Atomic p id m = search atomic_rules depth 10

detect-Keeps :
    (sort_strings : List String → List String) (files : List GeneratedFile)
    → Keeps SameDocs (detect_path_conflicts sort_strings files)
unfolding detect_path_conflicts
detect-Keeps sort_strings files = search keeps_rules depth 6

pub publish-Atomic :
    (sort_strings : List String → List String) (p : Ports) (id : ℕ) (url token message : String)
    → Atomic (publish_migration sort_strings p id url token message)
unfolding publish_migration publish_checked
publish-Atomic sort_strings p id url token message =
    search
      (
        Atomic-after, Atomic-then, Keeps-guard, Keeps-get_by_id, Keeps-ask, Keeps-map_error,
        Keeps-from_result, detect-Keeps, push-Keeps, advance-Atomic, Sure-pure,
      )
      depth 24

pub assess-Atomic : (p : Ports) (id : ℕ) (l : String) → Atomic (assess_migrability p id l)
unfolding assess_migrability set_migrability_assessment
assess-Atomic p id l = search (atomic_rules, Keeps-guard, Keeps-get_by_id, notes_rules) depth 16

pub override-Atomic : (p : Ports) (id : ℕ) (b : Bool) → Atomic (override_migrability p id b)
unfolding override_migrability set_migrability_override
override-Atomic p id b = search (atomic_rules, Keeps-guard, Keeps-get_by_id) depth 12

usable_roadmap-Keeps : (r : Option Roadmap) → Keeps SameDocs (usable_roadmap r)
unfolding usable_roadmap
usable_roadmap-Keeps r = search keeps_rules depth 6

pub enrich-Atomic : (p : Ports) (id : ℕ) → Atomic (enrich_roadmap p id)
unfolding enrich_roadmap set_roadmap_enrichment
enrich-Atomic p id =
    search (atomic_rules, Keeps-guard, Keeps-get_by_id, usable_roadmap-Keeps, notes_rules) depth 16

pub blueprint-Atomic : (p : Ports) (id : ℕ) → Atomic (generate_blueprint p id)
unfolding generate_blueprint set_service_blueprint
blueprint-Atomic p id =
    search (atomic_rules, Keeps-guard, Keeps-get_by_id, usable_roadmap-Keeps, notes_rules) depth 16

pub roadmap-Atomic :
    (s : Sorter) (p : Ports) (id : ℕ) → Atomic (generate_restructuring_roadmap s p id)
unfolding generate_restructuring_roadmap set_restructuring_roadmap
roadmap-Atomic s p id = search (atomic_rules, Keeps-guard, Keeps-get_by_id, notes_rules) depth 16
