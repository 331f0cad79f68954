-- ===== src/Migration/Moves/Edits.antt =====
-- Requests that make at most one move: reading, deleting, cancelling, approving, publishing.
use milton_prism.Prelude.{
  subst, sym, ℕ, String, Bool, true, false, not, some, ◌≡◌, refl, arith, ◌==◌, List,
}
use milton_prism.Migration.Domain.{
  ready, pushed, awaiting_approval, cancelled, state_number, is_terminal_state,
}
use milton_prism.Migration.World.{World, Doc}
use milton_prism.Migration.Ports.{GeneratedFile, Ports}
use milton_prism.Migration.Store.{migration_doc_to_domain, put_doc, update_state, live, soft_delete}
use milton_prism.Migration.Lifecycle.{
  cancel_migration, cancel_checked, delete_migration, get_migration, load_records,
}
use milton_prism.Migration.Approval.{
  dispatch_generation, approve_checked, approve_design, dispatch_generation, next_state,
}
use milton_prism.Migration.Publish.{
  publish_checked, publish_migration, is_publishable, push, advance_to_pushed,
  get_generation_package,
}
use milton_prism.Migration.Keeps.{
  Keeps-ask, Keeps-map_error, Keeps-from_result, IsFlow, Keeps-pure, Keeps-guard, Keeps, Keeps-bind,
  Keeps-guard, Keeps-pure, keeps_rules,
}
use milton_prism.Migration.Under.{
  Under-bind, Under-branch, Under-write, Under-Keeps, Under, under_rules, SameDocs-IsFlow,
}
use milton_prism.Migration.Diagram.{
  state_number_injective, publish_edge, Follows, Follows-IsFlow, move-Follows, write-Follows, ◌⟶*◌,
  one, cancel_edge, delete_edge, approve_edge, alive,
}

pub get_move : (p : Ports) (id : ℕ) → Keeps Follows (get_migration p id)
unfolding get_migration load_records
get_move p id = search keeps_rules depth 12

pub package_move : (p : Ports) (id : ℕ) → Keeps Follows (get_generation_package p id)
unfolding get_generation_package
package_move p id = search keeps_rules depth 16

cancel_write :
    (id : ℕ) (d : Doc)
    → d.deleted ≡ false
    → not (is_terminal_state d.state) ≡ true
    → (w : World) → w.docs id ≡ some d
    → live d ≡ true
    → Follows w (put_doc w id (record d { state = cancelled }))
cancel_write id d l h w e _ =
    move-Follows w id d (record d { state = cancelled }) e l l (one (cancel_edge (ground arith)))

pub cancel_move : (p : Ports) (id : ℕ) → Keeps Follows (cancel_migration p id)
unfolding cancel_migration cancel_checked update_state
cancel_move p id = search (Keeps-bind, Keeps-guard, under_rules, Keeps-pure, cancel_write) depth 14

delete_write :
    (id : ℕ) (d : Doc)
    → d.deleted ≡ false
    → is_terminal_state d.state ≡ true
    → (w : World) → w.docs id ≡ some d
    → live d ≡ true
    → Follows w (put_doc w id (record d { deleted = true }))
delete_write id d l h w e _ =
    write-Follows w id d (record d { deleted = true }) e (rw l (one (delete_edge h)))

pub delete_move : (p : Ports) (id : ℕ) → Keeps Follows (delete_migration p id)
unfolding delete_migration soft_delete
delete_move p id = search (Keeps-bind, Keeps-guard, under_rules, delete_write) depth 14

approve_write :
    (id : ℕ) (b : Bool) (d : Doc)
    → d.deleted ≡ false
    → (state_number d.state == state_number awaiting_approval) ≡ true
    → (w : World) → w.docs id ≡ some d
    → live d ≡ true
    → Follows w (put_doc w id (record d { state = next_state b }))
approve_write id b d l h w e _ =
    move-Follows w id d (record d { state = next_state b }) e l l
      (rw (state_number_injective d.state awaiting_approval h)
        elim b as (λ b. alive awaiting_approval ⟶* alive (next_state b)) [
          | true ↦ one approve_edge
          | false ↦ one (cancel_edge refl)
        ])

pub dispatch-Keeps :
    {R : World → World → Type 0} ⦃flow : IsFlow R⦄ (p : Ports) (id : ℕ) (b : Bool)
    (names : List String)
    → Keeps R (dispatch_generation p id b names)
unfolding dispatch_generation
dispatch-Keeps p id b names = search keeps_rules depth 12

pub approve_move :
    (p : Ports) (id : ℕ) (b : Bool) (names : List String)
    → Keeps Follows (approve_design p id b names)
unfolding approve_design approve_checked update_state
approve_move p id b names =
    search (Keeps-bind, Keeps-guard, under_rules, Keeps-pure, dispatch-Keeps, approve_write) depth
      16

advance_write :
    (id : ℕ) (d : Doc)
    → d.deleted ≡ false
    → is_publishable (migration_doc_to_domain id d) ≡ true
    → (state_number d.state == state_number pushed) ≡ false
    → (w : World) → w.docs id ≡ some d
    → live d ≡ true
    → Follows w (put_doc w id (record d { state = pushed }))
unfolding migration_doc_to_domain
advance_write id d l h n w e _ =
    move-Follows w id d (record d { state = pushed }) e l l
      (subst (λ s. alive s ⟶* alive pushed)
        (sym (state_number_injective d.state ready (ground arith))) (one publish_edge))

advance-Under :
    (p : Ports) (id : ℕ) (d : Doc)
    → d.deleted ≡ false
    → is_publishable (migration_doc_to_domain id d) ≡ true
    → Under Follows id d (advance_to_pushed p id (migration_doc_to_domain id d))
unfolding advance_to_pushed update_state migration_doc_to_domain
advance-Under p id d l h =
    search (Under-branch, Under-write, Under-Keeps, Keeps-pure, advance_write) depth 10

module _ {R : World → World → Type 0} ⦃flow : IsFlow R⦄ where
  pub push-Keeps :
      (p : Ports) (url token message : String) (files : List GeneratedFile)
      → Keeps R (push p url token message files)
  unfolding push
  push-Keeps p url token message files = search keeps_rules depth 12

pub publish_move :
    (sort_strings : List String → List String) (p : Ports) (id : ℕ) (url token message : String)
    → Keeps Follows (publish_migration sort_strings p id url token message)
unfolding publish_migration publish_checked
publish_move sort_strings p id url token message =
    search
      (
        Keeps-bind, Keeps-guard, under_rules, Under-bind, Keeps-pure, Keeps-ask, Keeps-map_error,
        Keeps-from_result, push-Keeps, advance-Under,
      )
      depth 24
