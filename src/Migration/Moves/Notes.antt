-- ===== src/Migration/Moves/Notes.antt =====
-- Requests that write beside the state, and the request that makes a roadmap.
use milton_prism.Prelude.{
  false, subst, sym, ◌∙◌, ℕ, String, Bool, true, false, some, ◌≡◌, sym, arith, subst,
}
use milton_prism.Migration.Domain.{
  restructuring_ready, awaiting_approval, Migration, Assessment, Roadmap, awaiting_approval,
  restructuring_ready,
}
use milton_prism.Migration.World.{World, Doc}
use milton_prism.Migration.Roadmap.{Sorter}
use milton_prism.Migration.Ports.{Ports}
use milton_prism.Migration.Store.{
  set_migrability_override, live_in, set_restructuring_roadmap, set_roadmap_enrichment,
  set_service_blueprint, put_doc, live, live_in, set_migrability_assessment,
  set_migrability_override, set_restructuring_roadmap, set_roadmap_enrichment,
  set_service_blueprint,
}
use milton_prism.Migration.Approval.{
  override_migrability, assess_migrability, run_assessor, canonical_score, override_migrability,
}
use milton_prism.Migration.Roadmap.{Sorter}
use milton_prism.Migration.Restructure.{
  enrich_roadmap, generate_blueprint, generate_restructuring_roadmap, usable_roadmap,
  enrich_roadmap, usable_roadmap, run_enricher, generate_blueprint, run_blueprint, read_summary,
  generate_restructuring_roadmap,
}
use milton_prism.Migration.Keeps.{IsFlow, Keeps, Keeps-update_or_not_found, keeps_rules}
use milton_prism.Migration.Diagram.{
  state_number_injective, alive, one, restructure_edge, ◌⟶*◌, Follows, Follows-IsFlow, move-Follows,
  ◌⟶*◌, one, here, restructure_edge, alive,
}

module _ {R : World → World → Type 0} ⦃flow : IsFlow R⦄ where
  pub run_assessor-Keeps : (p : Ports) (id : ℕ) (l : String) → Keeps R (run_assessor p id l)
  unfolding run_assessor
  run_assessor-Keeps p id l = search keeps_rules depth 12

  pub canonical_score-Keeps :
      (p : Ports) (id : ℕ) (a : Assessment) → Keeps R (canonical_score p id a)
  unfolding canonical_score
  canonical_score-Keeps p id a = search keeps_rules depth 12

  pub run_enricher-Keeps : (p : Ports) (r : Roadmap) → Keeps R (run_enricher p r)
  unfolding run_enricher
  run_enricher-Keeps p r = search keeps_rules depth 12

  pub run_blueprint-Keeps : (p : Ports) (id : ℕ) (r : Roadmap) → Keeps R (run_blueprint p id r)
  unfolding run_blueprint
  run_blueprint-Keeps p id r = search keeps_rules depth 12

  pub read_summary-Keeps : (p : Ports) (m : Migration) → Keeps R (read_summary p m)
  unfolding read_summary
  read_summary-Keeps p m = search keeps_rules depth 16

pub ruleset notes_rules = (
  run_assessor-Keeps, canonical_score-Keeps, run_enricher-Keeps, run_blueprint-Keeps,
  read_summary-Keeps,
)

note_write :
    (id : ℕ) (set : Doc → Doc)
    → ((d : Doc) → (set d).state ≡ d.state)
    → ((d : Doc) → (set d).deleted ≡ d.deleted)
    → (w : World) (d : Doc) → w.docs id ≡ some d
    → live d ≡ true
    → Follows w (put_doc w id (set d))
note_write id set s l w d e h =
    let there : d.deleted ≡ false = ground arith in
    move-Follows w id d (set d) e there (l d ∙ there) (rw (s d) here)

pub assess_move : (p : Ports) (id : ℕ) (l : String) → Keeps Follows (assess_migrability p id l)
unfolding assess_migrability set_migrability_assessment
assess_move p id l =
    search (keeps_rules, notes_rules, Keeps-update_or_not_found, note_write) depth 24

pub override_move : (p : Ports) (id : ℕ) (b : Bool) → Keeps Follows (override_migrability p id b)
unfolding override_migrability set_migrability_override
override_move p id b = search (keeps_rules, Keeps-update_or_not_found, note_write) depth 16

pub enrich_move : (p : Ports) (id : ℕ) → Keeps Follows (enrich_roadmap p id)
unfolding enrich_roadmap usable_roadmap set_roadmap_enrichment
enrich_move p id = search (keeps_rules, notes_rules, Keeps-update_or_not_found, note_write) depth 24

pub blueprint_move : (p : Ports) (id : ℕ) → Keeps Follows (generate_blueprint p id)
unfolding generate_blueprint usable_roadmap set_service_blueprint
blueprint_move p id =
    search (keeps_rules, notes_rules, Keeps-update_or_not_found, note_write) depth 24

roadmap_write :
    (id : ℕ) (r : Roadmap) (w : World) (d : Doc)
    → w.docs id ≡ some d
    → live_in awaiting_approval d ≡ true
    → Follows w (put_doc w id (record d { state = restructuring_ready; roadmap = some r }))
roadmap_write id r w d e h =
    let there : d.deleted ≡ false = ground arith in
    move-Follows w id d (record d { state = restructuring_ready; roadmap = some r }) e there there
      (subst (λ s. alive s ⟶* alive restructuring_ready)
        (sym (state_number_injective d.state awaiting_approval (ground arith)))
        (one restructure_edge))

pub roadmap_move :
    (s : Sorter) (p : Ports) (id : ℕ) → Keeps Follows (generate_restructuring_roadmap s p id)
unfolding generate_restructuring_roadmap set_restructuring_roadmap
roadmap_move s p id =
    search (keeps_rules, notes_rules, Keeps-update_or_not_found, roadmap_write) depth 24
