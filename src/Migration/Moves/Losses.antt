-- ===== src/Migration/Moves/Losses.antt =====
-- CreateMigration, and then every request but StartMigration, leaves the collection alone when it fails.
use milton_prism.Migration.Moves.Failures.{
  publish-Atomic, package-Atomic, blueprint-Atomic, enrich-Atomic, roadmap-Atomic, override-Atomic,
  assess-Atomic, approve-Atomic, cancel-Atomic, delete-Atomic, get-Atomic,
}
use milton_prism.Migration.Requests.{
  publish_request, package_request, blueprint_request, enrich_request, roadmap_request,
  override_request, assess_request, approve_request, cancel_request, delete_request, get_request,
  create_request, Sorting, start_request, handle, Request, forget,
}
use milton_prism.Migration.World.{pure, ok, err, Result, M, Doc, World}
use milton_prism.Migration.Domain.{Migration}
use milton_prism.Migration.Sequence.{
  roll_back, with_transaction, settle_transaction, create, insert_doc,
}
use milton_prism.Migration.Moves.Births.{generate_identifier-Keeps, url-Keeps, owner-Keeps, IsBlind}
use milton_prism.Migration.Store.{command}
use milton_prism.Migration.Lifecycle.{create_migration}
use milton_prism.Prelude.{
  arith, ◌≡◌, true, refl, none, false, inr, some, inl, Option-cases, Option, ℕ, Bool,
}
use milton_prism.Migration.Ports.{Ports}
use milton_prism.Migration.Keeps.{Keeps-map_error, Keeps-raise, Keeps-guard}
use milton_prism.Migration.Calls.{tick}
use milton_prism.Migration.Under.{SameDocs, SameDocs-IsFlow}
use milton_prism.Migration.Atomic.{
  Atomic-map_error, Intact, Atomic-then, Atomic-after, Sure-pure, Atomic-Keeps, Atomic,
}

instance SameDocs-IsBlind : IsBlind SameDocs
SameDocs-IsBlind = record { count = λ w n. refl }

run-Atomic :
    {A : Type 0} (p : Ports) (run : World → Result A × World) → Atomic run → Atomic (command p run)
unfolding command
run-Atomic p run h = record {
  intact = λ w. elim (Option-cases (p.db_fault w.clock)) [
    | inl runs ↦ rw (runs, command) (h.intact (tick w))
    | inr (n, fails) ↦ rw (fails, command) refl
  ];
}

insert-Atomic : (id : ℕ) (d : Doc) → Atomic (insert_doc id d)
unfolding insert_doc
insert-Atomic id d = record {
  intact = λ w. elim (Option-cases (w.docs id)) [
    | inl free ↦ rw (free, insert_doc) tt
    | inr (d', taken) ↦ rw (taken, insert_doc) refl
  ];
}

create_one-Atomic : (p : Ports) (m : Migration) → Atomic (create p m)
unfolding create
create_one-Atomic p m =
    search
      (
        Atomic-after, Atomic-then, Atomic-map_error, Keeps-map_error, generate_identifier-Keeps,
        run-Atomic, insert-Atomic, Sure-pure,
      )
      depth 12

settle-Intact :
    {A : Type 0} (p : Ports) (started : Bool) (w : World) (x : Result A × World)
    → Intact w x
    → Intact w (settle_transaction p started w x)
unfolding settle_transaction roll_back
settle-Intact p false w x h = h
settle-Intact p true w (err e, w') h = refl
settle-Intact p true w (ok a, w') h = elim (Option-cases (p.db_fault w'.clock)) [
  | inl commits ↦ rw (commits, settle_transaction) tt
  | inr (n, fails) ↦ rw (fails, settle_transaction) refl
]

transaction-Atomic :
    {A : Type 0} (p : Ports) (body : M A) → Atomic body → Atomic (with_transaction p body)
unfolding with_transaction
transaction-Atomic p body h = record {
  intact =
      λ w. settle-Intact p (p.session_starts w.clock) (tick w) (body (tick w)) (h.intact (tick w));
}

create-Atomic : (p : Ports) (m : Option Migration) → Atomic (create_migration p m)
unfolding create_migration
create-Atomic p none = Atomic-Keeps _ (Keeps-raise _)
create-Atomic p (some m) =
    search
      (
        Atomic-after, Keeps-guard, owner-Keeps, url-Keeps, Atomic-map_error, transaction-Atomic,
        create_one-Atomic,
      )
      depth 12

Atomic-forget : {A : Type 0} {m : M A} → Atomic m → Atomic (forget m)
unfolding forget
Atomic-forget {m = m} h = Atomic-then m (λ _. pure tt) h λ _. Sure-pure tt

abbrev pub is_start : Request → Bool
is_start (start_request id) = true
is_start _ = false

pub handle-Atomic :
    (s : Sorting) (p : Ports) (r : Request) → is_start r ≡ false → Atomic (handle s p r)
unfolding handle
handle-Atomic s p (create_request m) _ = Atomic-forget (create-Atomic p m)
handle-Atomic s p (get_request id) _ = Atomic-forget (get-Atomic p id)
handle-Atomic s p (delete_request id) _ = Atomic-forget (delete-Atomic p id)
handle-Atomic s p (start_request id) h = ground arith
handle-Atomic s p (cancel_request id) _ = Atomic-forget (cancel-Atomic p id)
handle-Atomic s p (approve_request id b names) _ = Atomic-forget (approve-Atomic p id b names)
handle-Atomic s p (assess_request id l) _ = Atomic-forget (assess-Atomic p id l)
handle-Atomic s p (override_request id b) _ = Atomic-forget (override-Atomic p id b)
handle-Atomic s p (roadmap_request id) _ = Atomic-forget (roadmap-Atomic s.by_impact p id)
handle-Atomic s p (enrich_request id) _ = Atomic-forget (enrich-Atomic p id)
handle-Atomic s p (blueprint_request id) _ = Atomic-forget (blueprint-Atomic p id)
handle-Atomic s p (package_request id) _ = Atomic-forget (package-Atomic p id)
handle-Atomic s p (publish_request id url token message) _ =
    Atomic-forget (publish-Atomic s.strings p id url token message)
