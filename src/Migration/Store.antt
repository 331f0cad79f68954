-- ===== src/Migration/Store.antt =====
-- core/services/migration/infrastructure/repositories: the Mongo repository of migrations.
-- `UpdateOne` by the unique identifier is a look-up, a test of the other conditions of the filter
-- and a `$set`. `update_time` is not kept: nothing reads it back.
use milton_prism.Prelude.{
  ℕ, ◌+◌, String, Bool, true, false, not, ◌&&◌, Option, none, some, ◌==◌, if◌then◌else◌, is_empty,
  [],
}
use milton_prism.Migration.Domain.{
  State, analyzing, designing, awaiting_approval, restructuring_ready, Error, migration_not_found,
  driver, wrapped, Assessment, Roadmap, Migration, state_number,
}
use milton_prism.Migration.World.{Doc, World, Result, ok, err, M, pure, ◌>>=◌, guard, map_error}
use milton_prism.Migration.Ports.{Ports}

-- The document as stored, and the record that a reader sees: an enrichment or a blueprint that was
-- stored on its own replaces the one inside the roadmap.
unfoldable pub overlay : Option String → Option String → Option String
overlay none old = old
overlay (some new) old = some new

unfoldable pub roadmap_view : Doc → Option Roadmap
roadmap_view d = elim d.roadmap [
  | none ↦ none
  | some r ↦ some (record r {
    enrichment = overlay d.enrichment r.enrichment;
    blueprint = overlay d.blueprint r.blueprint;
  })
]

unfoldable pub migration_doc_to_domain : ℕ → Doc → Migration
migration_doc_to_domain id d = record {
  identifier = id;
  repository_id = d.repository_id;
  repository_url = d.repository_url;
  owner_user_id = d.owner_user_id;
  source_branch = d.source_branch;
  state = d.state;
  target = d.target;
  analysis_summary_id = d.analysis_summary_id;
  source_analysis_summary_id = d.source_analysis_summary_id;
  plan = d.plan;
  assessment = d.assessment;
  override = d.override;
  analysis_reused = d.analysis_reused;
  roadmap = roadmap_view d;
  generation_records = [];
}

unfoldable pub get_enrichment : Option Roadmap → Option String
get_enrichment none = none
get_enrichment (some r) = r.enrichment

unfoldable pub get_blueprint : Option Roadmap → Option String
get_blueprint none = none
get_blueprint (some r) = r.blueprint

unfoldable pub migration_to_doc : Migration → Doc
migration_to_doc m = record {
  repository_id = m.repository_id;
  repository_url = m.repository_url;
  owner_user_id = m.owner_user_id;
  source_branch = m.source_branch;
  state = m.state;
  target = m.target;
  analysis_summary_id = m.analysis_summary_id;
  source_analysis_summary_id = m.source_analysis_summary_id;
  plan = m.plan;
  assessment = m.assessment;
  override = m.override;
  analysis_reused = false;
  roadmap = m.roadmap;
  enrichment = get_enrichment m.roadmap;
  blueprint = get_blueprint m.roadmap;
  failure_reason = "";
  deleted = false;
}

unfoldable pub put_doc : World → ℕ → Doc → World
put_doc w id d = record w { docs = λ j. if id == j then some d else w.docs j }

-- Filters. `live` is `"delete_time": nil`.
abbrev pub live : Doc → Bool
live d = not d.deleted

abbrev pub live_in : State → Doc → Bool
live_in s d = (state_number d.state == state_number s) && not d.deleted

abbrev pub any_doc : Doc → Bool
any_doc d = true

-- What `UpdateOne` does once the command has reached the server; the Boolean is `MatchedCount > 0`.
unfoldable pub update_matching : (Doc → Bool) → (Doc → Doc) → ℕ → World → Bool × World
update_matching filter set id w = elim (w.docs id) [
  | none ↦ (false, w)
  | some d ↦ if filter d then (true, put_doc w id (set d)) else (false, w)
]

-- One database command: it fails at the driver, or it is executed.
unfoldable pub command : {A : Type 0} → Ports → (World → Result A × World) → M A
command p run w =
    let w' = record w { clock = w.clock + 1 } in
    elim (p.db_fault w.clock) [ none ↦ run w' | some e ↦ (err (driver e), w') ]

unfoldable pub run_update : (Doc → Bool) → (Doc → Doc) → ℕ → World → Result Bool × World
unfolding update_matching
run_update filter set id w = let (matched, w') = update_matching filter set id w in (ok matched, w')

unfoldable pub update_one : Ports → (Doc → Bool) → (Doc → Doc) → ℕ → M Bool
unfolding command run_update
update_one p filter set id = command p (run_update filter set id)

-- The shape shared by the setters: `MatchedCount == 0` is `ErrMigrationNotFound`.
unfoldable pub update_or_not_found : Ports → String → (Doc → Bool) → (Doc → Doc) → ℕ → M Unit
unfolding update_one
update_or_not_found p context filter set id = do
  matched ← map_error (wrapped context) (update_one p filter set id)
  guard matched migration_not_found

-- `FindOne`: no document is `ErrMigrationNotFound`.
unfoldable pub find_doc : (Doc → Bool) → ℕ → World → Result Doc × World
find_doc filter id w = elim (w.docs id) [
  | none ↦ (err migration_not_found, w)
  | some d ↦ (if filter d then ok d else err migration_not_found, w)
]

-- A driver's error is wrapped, and the typed not-found error is returned as it is.
unfoldable pub wrap_driver : String → Error → Error
wrap_driver context (driver n) = wrapped context (driver n)
wrap_driver context e = e

abbrev pub visible : Bool → Doc → Bool
visible include_deleted d = if include_deleted then true else live d

unfoldable pub get_by_id : Ports → ℕ → Bool → M Migration
unfolding command find_doc wrap_driver migration_doc_to_domain
get_by_id p id include_deleted = do
  d ←
      map_error (wrap_driver "migration: find one failed")
        (command p (find_doc (visible include_deleted) id))
  pure (migration_doc_to_domain id d)

unfoldable pub update_state : Ports → ℕ → State → M Unit
unfolding update_or_not_found
update_state p id s =
    update_or_not_found p "migration: update_state failed" live (λ d. record d { state = s }) id

unfoldable pub set_repository_url : Ports → ℕ → String → M Unit
unfolding update_or_not_found
set_repository_url p id url =
    update_or_not_found p "migration: set_repository_url failed" any_doc
      (λ d. record d { repository_url = url }) id

unfoldable pub set_migrability_assessment : Ports → ℕ → Assessment → M Unit
unfolding update_or_not_found
set_migrability_assessment p id a =
    update_or_not_found p "migration: set_migrability_assessment failed" live
      (λ d. record d { assessment = some a }) id

unfoldable pub set_migrability_override : Ports → ℕ → Bool → M Unit
unfolding update_or_not_found
set_migrability_override p id b =
    update_or_not_found p "migration: set_migrability_override failed" live
      (λ d. record d { override = b }) id

unfoldable pub set_restructuring_roadmap : Ports → ℕ → Roadmap → M Unit
unfolding update_or_not_found
set_restructuring_roadmap p id r =
    update_or_not_found p "migration: set_restructuring_roadmap failed" (live_in awaiting_approval)
      (λ d. record d { state = restructuring_ready; roadmap = some r }) id

unfoldable pub set_roadmap_enrichment : Ports → ℕ → String → M Unit
unfolding update_or_not_found
set_roadmap_enrichment p id text =
    update_or_not_found p "migration: set_roadmap_enrichment failed" live
      (λ d. record d { enrichment = some text }) id

unfoldable pub set_service_blueprint : Ports → ℕ → String → M Unit
unfolding update_or_not_found
set_service_blueprint p id text =
    update_or_not_found p "migration: set_service_blueprint failed" live
      (λ d. record d { blueprint = some text }) id

unfoldable pub soft_delete : Ports → ℕ → M Unit
unfolding update_or_not_found
soft_delete p id =
    update_or_not_found p "migration: soft delete failed" live (λ d. record d { deleted = true }) id

abbrev pub adopt_fields : ℕ → String → Doc → Doc
adopt_fields summary_id branch d = record d {
  state = designing;
  analysis_summary_id = summary_id;
  analysis_reused = true;
  source_branch = if is_empty branch then d.source_branch else branch;
}

unfoldable pub adopt_analysis : Ports → ℕ → ℕ → String → M Unit
unfolding update_or_not_found
adopt_analysis p id summary_id branch =
    update_or_not_found p "migration: adopt_analysis failed" (live_in analyzing)
      (adopt_fields summary_id branch) id
