-- ===== src/Migration/Requests.antt =====
-- core/services/migration/application/service.go as one machine: the requests of the service's
-- interface, and a run of several, one after the other.
use milton_prism.Prelude.{ℕ, String, Bool, Option, List, [], ◌∷◌}
use milton_prism.Migration.Domain.{Migration}
use milton_prism.Migration.World.{pure, ◌>>◌, M, World}
use milton_prism.Migration.Keeps.{IsFlow, Keeps, Keeps-bind, Keeps-pure}
use milton_prism.Migration.Ports.{Ports}
use milton_prism.Migration.Lifecycle.{
  create_migration, get_migration, delete_migration, cancel_migration,
}
use milton_prism.Migration.Start.{start_migration}
use milton_prism.Migration.Approval.{approve_design, assess_migrability, override_migrability}
use milton_prism.Migration.Roadmap.{Sorter}
use milton_prism.Migration.Restructure.{
  enrich_roadmap, generate_blueprint, generate_restructuring_roadmap,
}
use milton_prism.Migration.Publish.{get_generation_package, publish_migration}

pub data Request : Type 0 where
  create_request : Option Migration → Request
  get_request delete_request start_request cancel_request : ℕ → Request
  approve_request : ℕ → Bool → List String → Request
  assess_request : ℕ → String → Request
  override_request : ℕ → Bool → Request
  roadmap_request enrich_request blueprint_request package_request : ℕ → Request
  publish_request : (id : ℕ) → (target_url write_token commit_message : String) → Request

-- The functions of the standard library's `sort` that the service calls.
pub record Sorting : Type 1 where
  pub by_impact : Sorter
  pub strings : List String → List String

-- The answer of a request, less its payload.
unfoldable pub forget : {A : Type 0} → M A → M Unit
forget m = m >> pure tt

unfoldable pub handle : Sorting → Ports → Request → M Unit
unfolding forget
handle s p (create_request m) = forget (create_migration p m)
handle s p (get_request id) = forget (get_migration p id)
handle s p (delete_request id) = forget (delete_migration p id)
handle s p (start_request id) = forget (start_migration p id)
handle s p (cancel_request id) = forget (cancel_migration p id)
handle s p (approve_request id b names) = forget (approve_design p id b names)
handle s p (assess_request id l) = forget (assess_migrability p id l)
handle s p (override_request id b) = forget (override_migrability p id b)
handle s p (roadmap_request id) = forget (generate_restructuring_roadmap s.by_impact p id)
handle s p (enrich_request id) = forget (enrich_roadmap p id)
handle s p (blueprint_request id) = forget (generate_blueprint p id)
handle s p (package_request id) = forget (get_generation_package p id)
handle s p (publish_request id url token message) =
    forget (publish_migration s.strings p id url token message)

unfoldable pub serve_all : Sorting → Ports → List Request → World → World
unfolding handle
serve_all s p [] w = w
serve_all s p (r ∷ rs) w = serve_all s p rs (handle s p r w).1

pub Keeps-forget :
    {R : World → World → Type 0} ⦃flow : IsFlow R⦄ {A : Type 0} {m : M A}
    → Keeps R m
    → Keeps R (forget m)
unfolding forget
Keeps-forget {m = m} k = Keeps-bind m (λ _. pure tt) k λ _. Keeps-pure tt
