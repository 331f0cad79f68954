-- ===== src/Migration/Gate.antt =====
-- ApproveDesign as the gate of the generation: what it takes, and what it does then.
use mathlib.Core.List.{append-nil}
use milton_prism.Migration.Healthy.{read_ok, write_ok, IsHealthy}
use milton_prism.Migration.Calls.{tick}
use milton_prism.Prelude.{
  ap, ◌∷◌, ◌++◌, [], ℕ, ◌+◌, String, Bool, true, false, not, ◌&&◌, Option, none, some, List, ◌≡◌,
  refl, sym, ◌∙◌, ◌==◌, arith,
}
use milton_prism.Migration.Domain.{
  Error, Migration, awaiting_approval, generating, get_no_service_boundaries, state_number,
}
use milton_prism.Migration.World.{enqueue_generation, Call, World, Doc, ok}
use milton_prism.Migration.Ports.{Ports}
use milton_prism.Migration.Store.{put_doc, update_state, migration_doc_to_domain, live}
use milton_prism.Migration.Approval.{
  approve_design, approve_checked, dispatch_generation, migrability_blocked,
}
use milton_prism.Migration.Under.{SameDocs-IsFlow}
use milton_prism.Migration.Ends.{Ends}

-- The document that an approval needs, and the one it leaves.
pub record IsApproved (id : ℕ) (w : World) (m : Migration) (w' : World) : Type 0 where
  pub doc : Doc
  pub stored : w.docs id ≡ some doc
  pub there : doc.deleted ≡ false
  pub awaiting : doc.state ≡ awaiting_approval
  pub has_boundaries : get_no_service_boundaries doc.plan ≡ false
  pub migrable : migrability_blocked (migration_doc_to_domain id doc) ≡ false
  pub written : w'.docs id ≡ some (record doc { state = generating })
  pub answer : m.state ≡ generating

-- What an approval asks of the record it has read.
abbrev pub is_approvable : Migration → Bool
is_approvable m =
    (state_number m.state == state_number awaiting_approval)
    && not (get_no_service_boundaries m.plan)
    && not (migrability_blocked m)

-- The calls of a dispatch: one job, where there is a queue.
unfoldable pub dispatched : Ports → ℕ → List String → List Call
dispatched p id names = elim p.generation_enqueuer [
  | none ↦ []
  | some _ ↦ enqueue_generation id names ∷ []
]

dispatch_calls :
    (p : Ports) (id : ℕ) (names : List String) (w : World)
    (o : Option (ℕ → ℕ → List String → Option Error))
    → p.generation_enqueuer ≡ o
    → (w' : World) × (dispatch_generation p id true names w ≡ (ok tt, w'))
      × (w'.calls ≡ w.calls ++ dispatched p id names)
      × (w'.docs ≡ w.docs)
unfolding dispatch_generation dispatched
dispatch_calls p id names w none e = (w, rw e refl, rw e (sym (append-nil w.calls)), refl)
dispatch_calls p id names w (some enqueue) e = (
  record w { clock = w.clock + 1; calls = w.calls ++ (enqueue_generation id names ∷ []) },
  rw e refl,
  rw e refl,
  refl,
)

pub approve_checked-accepts :
    (p : Ports) (id : ℕ) (names : List String) (w : World) (d : Doc)
    → IsHealthy p
    → w.docs id ≡ some d
    → d.deleted ≡ false
    → (m : Migration) → is_approvable m ≡ true
    → (w' : World) × (approve_checked p id true names m w
        ≡ (ok (record m { state = generating }), w'))
      × (w'.docs id ≡ some (record d { state = generating }))
      × (w'.calls ≡ w.calls ++ dispatched p id names)
unfolding approve_checked update_state put_doc
approve_checked-accepts p id names w d h e l m can =
    let awaiting : (state_number m.state == state_number awaiting_approval) ≡ true = ground arith in
    let bounded : get_no_service_boundaries m.plan ≡ false = ground arith in
    let migrable : migrability_blocked m ≡ false = ground arith in
    let set = λ (c : Doc). record c { state = generating } in
    let v = put_doc (tick w) id (set d) in
    let (w', run, calls, docs) = dispatch_calls p id names v p.generation_enqueuer refl in
    let wrote = write_ok p "migration: update_state failed" live set id w d h e (rw l refl) in
    (
      w',
      rw (awaiting, bounded, migrable, wrote, run) refl,
      ap (λ g. g id) docs ∙ (ground arith),
      calls,
    )

-- While the database answers, an approval of a live migration in AWAITING_APPROVAL that has service
-- boundaries and is not blocked succeeds: the document is in GENERATING, and where there is a queue
-- the one call made is the generation job with the filter of services that was sent.
pub approve_design-accepts :
    (p : Ports) (id : ℕ) (names : List String) (w : World) (d : Doc)
    → IsHealthy p
    → (id == 0) ≡ false
    → w.docs id ≡ some d
    → d.deleted ≡ false
    → is_approvable (migration_doc_to_domain id d) ≡ true
    → (w' : World) × (approve_design p id true names w
        ≡ (ok (record (migration_doc_to_domain id d) { state = generating }), w'))
      × (w'.docs id ≡ some (record d { state = generating }))
      × (w'.calls ≡ w.calls ++ dispatched p id names)
unfolding approve_design
approve_design-accepts p id names w d h known e l can =
    let (w', run, written, calls) =
      approve_checked-accepts p id names (tick w) d h e l (migration_doc_to_domain id d) can in
    (w', rw (known, read_ok p id w d h e l) run, written, calls)
