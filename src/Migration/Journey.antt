-- ===== src/Migration/Journey.antt =====
-- What the service's requests, in any number and order, can make of a migration.
use milton_prism.Migration.Moves.Terms.{
  publish_terms, package_terms, blueprint_terms, enrich_terms, roadmap_terms, override_terms,
  assess_terms, approve_terms, cancel_terms, start_terms, delete_terms, get_terms, create_terms,
}
use milton_prism.Migration.Atomic.{Intact}
use milton_prism.Migration.Moves.Losses.{handle-Atomic, is_start}
use milton_prism.Prelude.{
  ◌∙◌, some, false, subst, arith, ℕ, true, List, [], ◌∷◌, ◌≡◌, refl, ◌⊎◌, inl, inr,
}
use milton_prism.Migration.Immutable.{terms, Preserves, Preserves-IsFlow, Preserves-IsFlow}
use milton_prism.Migration.Domain.{Error, State, is_terminal_state}
use milton_prism.Migration.World.{Doc, err, World}
use milton_prism.Migration.Ports.{Ports}
use milton_prism.Migration.Keeps.{Keeps}
use milton_prism.Migration.Diagram.{
  path_append, start_edge, roll_back_edge, adopt_edge, approve_edge, restructure_edge, publish_edge,
  cancel_edge, delete_edge, cancel_edge, delete_edge, Status, status, alive, erased, ◌⟶*◌, here,
  step, Follows, Follows-IsFlow,
}
use milton_prism.Migration.Moves.Births.{create_move}
use milton_prism.Migration.Moves.Starts.{start_move}
use milton_prism.Migration.Moves.Edits.{
  get_move, delete_move, cancel_move, approve_move, package_move, publish_move,
}
use milton_prism.Migration.Moves.Notes.{
  assess_move, override_move, roadmap_move, enrich_move, blueprint_move,
}
use milton_prism.Migration.Requests.{
  Keeps-forget, publish_request, package_request, blueprint_request, enrich_request,
  roadmap_request, override_request, assess_request, approve_request, cancel_request, start_request,
  delete_request, get_request, create_request, Request, Sorting, handle, serve_all,
}

handle-Follows : (s : Sorting) (p : Ports) (r : Request) → Keeps Follows (handle s p r)
unfolding handle
handle-Follows s p (create_request m) = Keeps-forget (create_move p m)
handle-Follows s p (get_request id) = Keeps-forget (get_move p id)
handle-Follows s p (delete_request id) = Keeps-forget (delete_move p id)
handle-Follows s p (start_request id) = Keeps-forget (start_move p id)
handle-Follows s p (cancel_request id) = Keeps-forget (cancel_move p id)
handle-Follows s p (approve_request id b names) = Keeps-forget (approve_move p id b names)
handle-Follows s p (assess_request id l) = Keeps-forget (assess_move p id l)
handle-Follows s p (override_request id b) = Keeps-forget (override_move p id b)
handle-Follows s p (roadmap_request id) = Keeps-forget (roadmap_move s.by_impact p id)
handle-Follows s p (enrich_request id) = Keeps-forget (enrich_move p id)
handle-Follows s p (blueprint_request id) = Keeps-forget (blueprint_move p id)
handle-Follows s p (package_request id) = Keeps-forget (package_move p id)
handle-Follows s p (publish_request id url token message) =
    Keeps-forget (publish_move s.strings p id url token message)

-- Whatever requests are served, in whatever order, and whatever the database and the other services
-- answer, every migration's status moves along the edges of the diagram or stays where it is.
pub serve_all-Follows :
    (s : Sorting) (p : Ports) (rs : List Request) (w : World) (j : ℕ)
    → status w j ⟶* status (serve_all s p rs w) j
unfolding serve_all
serve_all-Follows s p [] w j = here
serve_all-Follows s p (r ∷ rs) w j =
    path_append ((handle-Follows s p r).at w j) (serve_all-Follows s p rs (handle s p r w).1 j)

erased_stays : {t : Status} → erased ⟶* t → t ≡ erased
erased_stays here = refl
erased_stays (step e p) = elim e [ ]

-- No edge leaves ERASED, and from a final state the only one erases.
settles :
    {s : State} {t : Status}
    → is_terminal_state s ≡ true
    → alive s ⟶* t
    → (t ≡ alive s) ⊎ (t ≡ erased)
settles h here = inl refl
settles h (step (delete_edge k) p) = inr (erased_stays p)
settles h (step (cancel_edge k) p) = ground arith
settles h (step start_edge p) = ground arith
settles h (step roll_back_edge p) = ground arith
settles h (step adopt_edge p) = ground arith
settles h (step approve_edge p) = ground arith
settles h (step restructure_edge p) = ground arith
settles h (step publish_edge p) = ground arith

-- Once a migration is PUSHED, FAILED, CANCELLED or RESTRUCTURING_READY, no requests, in any number
-- and order, give it another state: afterwards it has that state still, or it has been deleted.
pub serve_all-IsFinal :
    (s : Sorting) (p : Ports) (rs : List Request) (w : World) (j : ℕ) (t : State)
    → status w j ≡ alive t
    → is_terminal_state t ≡ true
    → (status (serve_all s p rs w) j ≡ alive t) ⊎ (status (serve_all s p rs w) j ≡ erased)
serve_all-IsFinal s p rs w j t e h =
    settles h (subst (λ u. u ⟶* status (serve_all s p rs w) j) e (serve_all-Follows s p rs w j))

-- Where a command that fails at the driver is not executed, as the model has it, a request other than
-- StartMigration that answers with an error leaves every document of the collection as it was, whichever
-- of its calls has failed.
pub handle-error_keeps :
    (s : Sorting) (p : Ports) (r : Request) (w w' : World) (e : Error)
    → is_start r ≡ false
    → handle s p r w ≡ (err e, w')
    → w.docs ≡ w'.docs
handle-error_keeps s p r w w' e h q = subst (λ x. Intact w x) q ((handle-Atomic s p r h).intact w)

handle-Preserves : (s : Sorting) (p : Ports) (r : Request) → Keeps Preserves (handle s p r)
unfolding handle
handle-Preserves s p (create_request m) = Keeps-forget (create_terms p m)
handle-Preserves s p (get_request id) = Keeps-forget (get_terms p id)
handle-Preserves s p (delete_request id) = Keeps-forget (delete_terms p id)
handle-Preserves s p (start_request id) = Keeps-forget (start_terms p id)
handle-Preserves s p (cancel_request id) = Keeps-forget (cancel_terms p id)
handle-Preserves s p (approve_request id b names) = Keeps-forget (approve_terms p id b names)
handle-Preserves s p (assess_request id l) = Keeps-forget (assess_terms p id l)
handle-Preserves s p (override_request id b) = Keeps-forget (override_terms p id b)
handle-Preserves s p (roadmap_request id) = Keeps-forget (roadmap_terms s.by_impact p id)
handle-Preserves s p (enrich_request id) = Keeps-forget (enrich_terms p id)
handle-Preserves s p (blueprint_request id) = Keeps-forget (blueprint_terms p id)
handle-Preserves s p (package_request id) = Keeps-forget (package_terms p id)
handle-Preserves s p (publish_request id url token message) =
    Keeps-forget (publish_terms s.strings p id url token message)

-- No requests, in any number and order, remove a document from the collection or change its
-- repository, repository URL, owner, target, source analysis, plan or failure reason.
pub serve_all-keeps_terms :
    (s : Sorting) (p : Ports) (rs : List Request) (w : World) (j : ℕ) (d : Doc)
    → w.docs j ≡ some d
    → (d' : Doc) × ((serve_all s p rs w).docs j ≡ some d') × (terms d' ≡ terms d)
unfolding serve_all
serve_all-keeps_terms s p [] w j d e = (d, e, refl)
serve_all-keeps_terms s p (r ∷ rs) w j d e =
    let (c, k, h) = ((handle-Preserves s p r).at w).preserved j d e in
    let (d', k', h') = serve_all-keeps_terms s p rs (handle s p r w).1 j c k in (d', k', h' ∙ h)
