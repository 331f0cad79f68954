-- ===== src/Migration/Races.antt =====
-- A cancellation, and what arrives after it: an approval that had begun before, a plan from the
-- decomposition worker, the end of a generation.
use milton_prism.Migration.Approval.{approve_checked}
use milton_prism.Migration.Domain.{
  generating, awaiting_approval, is_terminal_state, cancelled, State, RestructurePlan, Migration,
}
use milton_prism.Migration.Workers.{set_final_state, write_plan}
use milton_prism.Migration.Gate.{approve_checked-accepts, is_approvable}
use milton_prism.Migration.Lifecycle.{cancel_checked, cancel_migration}
use milton_prism.Prelude.{ℕ, String, true, false, some, List, ◌≡◌, refl, ◌==◌, arith}
use milton_prism.Migration.World.{Doc, World, ok}
use milton_prism.Migration.Ports.{Ports}
use milton_prism.Migration.Store.{
  update_matching, run_update, command, update_one, update_state, put_doc, migration_doc_to_domain,
  live,
}
use milton_prism.Migration.Calls.{tick}
use milton_prism.Migration.Healthy.{IsHealthy, read_ok, write_ok}
use milton_prism.Migration.Diagram.{status, alive}

cancel_ok :
    (p : Ports) (id : ℕ) (w : World) (d : Doc)
    → IsHealthy p
    → (id == 0) ≡ false
    → w.docs id ≡ some d
    → d.deleted ≡ false
    → is_terminal_state d.state ≡ false
    → (u : World) × (cancel_migration p id w
        ≡ (ok (record (migration_doc_to_domain id d) { state = cancelled }), u))
      × (u.docs id ≡ some (record d { state = cancelled }))
unfolding cancel_migration cancel_checked update_state put_doc migration_doc_to_domain
cancel_ok p id w d h known e l open_state =
    let set = λ (c : Doc). record c { state = cancelled } in
    let wrote =
      write_ok p "migration: update_state failed" live set id (tick w) d h e (rw l refl) in
    (
      put_doc (tick (tick w)) id (set d),
      rw (known, read_ok p id w d h e l, open_state, wrote) refl,
      ground arith,
    )

-- An approval has read a migration that it may approve, a cancellation is then served, and the
-- approval goes on. While the database answers, both succeed, and the migration that had been
-- cancelled is in GENERATING.
pub approve_checked-undoes_cancel :
    (p : Ports) (id : ℕ) (names : List String) (w : World) (d : Doc)
    → IsHealthy p
    → (id == 0) ≡ false
    → w.docs id ≡ some d
    → d.deleted ≡ false
    → is_approvable (migration_doc_to_domain id d) ≡ true
    → (u v : World) × (cancelled_view approved_view : Migration) × (cancel_migration p id w
        ≡ (ok cancelled_view, u))
      × (status u id ≡ alive cancelled)
      × (approve_checked p id true names (migration_doc_to_domain id d) u ≡ (ok approved_view, v))
      × (status v id ≡ alive generating)
unfolding migration_doc_to_domain
approve_checked-undoes_cancel p id names w d h known e l can =
    let m = migration_doc_to_domain id d in
    let (u, cancels, stored) = cancel_ok p id w d h known e l (ground arith) in
    let (v, run, written, _) =
      approve_checked-accepts p id names u (record d { state = cancelled }) h stored l m can in
    (
      u,
      v,
      record m { state = cancelled },
      record m { state = generating },
      cancels,
      rw (stored, l) refl,
      run,
      rw (written, l) refl,
    )

-- A live migration that is not in a final state is cancelled, and a plan arrives for it. While the
-- database answers, the plan is stored and the cancelled migration is in AWAITING_APPROVAL.
pub write_plan-undoes_cancel :
    (p : Ports) (id : ℕ) (plan : RestructurePlan) (w : World) (d : Doc)
    → IsHealthy p
    → (id == 0) ≡ false
    → w.docs id ≡ some d
    → d.deleted ≡ false
    → is_terminal_state d.state ≡ false
    → (u v : World) × (m : Migration) × (cancel_migration p id w ≡ (ok m, u))
      × (status u id ≡ alive cancelled)
      × (write_plan p id plan u ≡ (ok tt, v))
      × (v.docs id ≡ some (record d { plan = some plan; state = awaiting_approval }))
unfolding write_plan put_doc
write_plan-undoes_cancel p id plan w d h known e l open_state =
    let (u, cancels, stored) = cancel_ok p id w d h known e l open_state in
    (
      u,
      put_doc (tick u) id (record d { plan = some plan; state = awaiting_approval }),
      record (migration_doc_to_domain id d) { state = cancelled },
      cancels,
      rw (stored, l) refl,
      rw (h u.clock, stored, l, update_one, command, run_update, update_matching) refl,
      ground arith,
    )

-- A live migration that is not in a final state is cancelled, and the end of its generation is
-- reported, as a success or as a failure. While the database answers, the cancelled migration is in
-- READY or in FAILED.
pub set_final_state-undoes_cancel :
    (p : Ports) (id : ℕ) (s : State) (w : World) (d : Doc)
    → IsHealthy p
    → (id == 0) ≡ false
    → w.docs id ≡ some d
    → d.deleted ≡ false
    → is_terminal_state d.state ≡ false
    → (u v : World) × (m : Migration) × (cancel_migration p id w ≡ (ok m, u))
      × (status u id ≡ alive cancelled)
      × (set_final_state p id s u ≡ (ok tt, v))
      × (v.docs id ≡ some (record d { state = s }))
unfolding set_final_state put_doc
set_final_state-undoes_cancel p id s w d h known e l open_state =
    let (u, cancels, stored) = cancel_ok p id w d h known e l open_state in
    (
      u,
      put_doc (tick u) id (record d { state = s }),
      record (migration_doc_to_domain id d) { state = cancelled },
      cancels,
      rw (stored, l) refl,
      rw (h u.clock, stored, l, update_one, command, run_update, update_matching) refl,
      ground arith,
    )
