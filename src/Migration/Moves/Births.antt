-- ===== src/Migration/Moves/Births.antt =====
-- CreateMigration: the identifier, the insertion and the transaction around them.
use milton_prism.Migration.Store.{put_doc, migration_to_doc, command}
use milton_prism.Prelude.{
  refl, sym, subst, some, none, Option, ◌≡◌, Option-cases, Bool, inl, inr, Bool-cases, ℕ, zero, suc,
  ◌+◌, true, false, ◌==◌,
}
use milton_prism.Migration.Domain.{pending, internal, wrapped, Migration}
use milton_prism.Migration.World.{Doc, World, Result, ok, err, M}
use milton_prism.Migration.Ports.{Ports}
use milton_prism.Migration.Sequence.{
  create, insert_doc, roll_back, with_transaction, settle_transaction, initialize, increment,
  insert_counter, or_else, attempt_sequence, generate_identifier, initial_sequence_value,
}
use milton_prism.Migration.Lifecycle.{create_migration, validate_owner, resolve_url}
use milton_prism.Migration.Keeps.{Keeps-raise, IsFlow, Keeps, keeps_rules, Keeps-command}
use milton_prism.Migration.Calls.{tick}
use milton_prism.Migration.Diagram.{
  put-Follows, status_of, create_edge, ◌⟶*◌, one, absent, here, Follows, Follows-IsFlow,
}

-- Relations that do not look at the counter either.
pub record IsBlind (R : World → World → Type 0) : Type 0 where
  pub count : (w : World) (n : ℕ) → R w (record w { counter = n })

module _ {R : World → World → Type 0} ⦃flow : IsFlow R⦄ ⦃blind : IsBlind R⦄ where
  increment-Keeps : Keeps R increment
  unfolding increment
  increment-Keeps = record {
    at = λ w. elim (Bool-cases (w.counter == 0)) [
      | inl new ↦ rw new (flow.stay w)
      | inr old ↦ rw old (blind.count w (w.counter + 1))
    ];
  }

  insert_counter-Keeps : Keeps R insert_counter
  unfolding insert_counter
  insert_counter-Keeps = record {
    at = λ w. elim (Bool-cases (w.counter == 0)) [
      | inl new ↦ rw new (blind.count w initial_sequence_value)
      | inr old ↦ rw old (flow.stay w)
    ];
  }

  pub run-Keeps :
      {A : Type 0} (p : Ports) (run : World → Result A × World)
      → Keeps R run
      → Keeps R (command p run)
  run-Keeps p run k = Keeps-command p run k.at

  or_else-Keeps : (r : Result ℕ) (m : M ℕ) → Keeps R m → Keeps R (or_else r m)
  unfolding or_else
  or_else-Keeps (ok n) m k = record { at = flow.stay }
  or_else-Keeps (err e) m k = record { at = k.at }

  initialize-Keeps : (p : Ports) (later : M ℕ) → Keeps R later → Keeps R (initialize p later)
  unfolding initialize
  initialize-Keeps p later k =
      search (keeps_rules, or_else-Keeps, run-Keeps, increment-Keeps, insert_counter-Keeps) depth 14

  attempt_sequence-Keeps : (p : Ports) (k : ℕ) → Keeps R (attempt_sequence p k)
  unfolding attempt_sequence
  attempt_sequence-Keeps p zero = Keeps-raise (wrapped "counters: max retries exceeded" internal)
  attempt_sequence-Keeps p (suc k) =
      initialize-Keeps p (attempt_sequence p k) (attempt_sequence-Keeps p k)

  pub generate_identifier-Keeps : (p : Ports) → Keeps R (generate_identifier p)
  unfolding generate_identifier
  generate_identifier-Keeps p =
      search (keeps_rules, or_else-Keeps, attempt_sequence-Keeps, run-Keeps, increment-Keeps) depth
        14

  pub owner-Keeps : (p : Ports) (owner : ℕ) → Keeps R (validate_owner p owner)
  unfolding validate_owner
  owner-Keeps p owner = search keeps_rules depth 12

  pub url-Keeps : (p : Ports) (m : Migration) → Keeps R (resolve_url p m)
  unfolding resolve_url
  url-Keeps p m = search keeps_rules depth 12

module _ (R : World → World → Type 0) ⦃flow : IsFlow R⦄ where
  -- What is left of the collection when the transaction has been settled.
  settle_at :
      {A : Type 0} (p : Ports)
      → ((w w' : World) → R w (roll_back w w'))
      → (started : Bool) (w : World) (x : Result A × World) → R w x.1
      → R w (settle_transaction p started (tick w) x).1
  unfolding settle_transaction
  settle_at p undo false w x h = h
  settle_at p undo true w (err e, w') h = flow.chain w (tick w) _ (flow.tick w _) (undo (tick w) w')
  settle_at p undo true w (ok a, w') h = elim (Option-cases (p.db_fault w'.clock)) [
    | inl commits ↦ rw (commits, settle_transaction) (flow.chain w w' (tick w') h (flow.tick w' _))
    | inr (n, fails) ↦
        rw (fails, settle_transaction)
          (flow.chain w (tick w) _ (flow.tick w _) (undo (tick w) (tick w')))
  ]

module _ {R : World → World → Type 0} ⦃flow : IsFlow R⦄ where
  pub Keeps-with_transaction :
      {A : Type 0} (p : Ports) (body : M A)
      → ((w w' : World) → R w (roll_back w w'))
      → Keeps R body
      → Keeps R (with_transaction p body)
  unfolding with_transaction
  Keeps-with_transaction p body undo k = record {
    at = λ w.
        settle_at R p undo (p.session_starts w.clock) w (body (tick w))
          (flow.chain w (tick w) (body (tick w)).1 (flow.tick w _) (k.at (tick w)));
  }

instance pub Follows-IsBlind : IsBlind Follows
Follows-IsBlind = record { count = λ w n j. here }

write_new :
    (w : World) (id : ℕ) (d : Doc)
    → w.docs id ≡ none
    → absent ⟶* status_of (some d)
    → Follows w (put_doc w id d)
write_new w id d e h = put-Follows w id d (subst (λ o. status_of o ⟶* status_of (some d)) (sym e) h)

undo-Follows : (w w' : World) → Follows w (roll_back w w')
unfolding roll_back
undo-Follows w w' j = here

stored_state : (m : Migration) → m.state ≡ pending → (migration_to_doc m).state ≡ pending
unfolding migration_to_doc
stored_state m h = h

stored_alive : (m : Migration) → (migration_to_doc m).deleted ≡ false
unfolding migration_to_doc
stored_alive m = refl

insert-Follows :
    (id : ℕ) (d : Doc) → d.state ≡ pending → d.deleted ≡ false → Keeps Follows (insert_doc id d)
unfolding insert_doc
insert-Follows id d s l = record {
  at = λ w. elim (Option-cases (w.docs id)) [
    | inl free ↦ rw (free, insert_doc) (write_new w id d free (rw (l, s) (one create_edge)))
    | inr (d', taken) ↦ rw (taken, insert_doc) (Follows-IsFlow.stay w)
  ];
}

create_one-Follows : (p : Ports) (m : Migration) → m.state ≡ pending → Keeps Follows (create p m)
unfolding create
create_one-Follows p m h =
    search
      (
        keeps_rules, generate_identifier-Keeps, run-Keeps, insert-Follows, stored_state,
        stored_alive,
      )
      depth 12

pub create_move : (p : Ports) (m : Option Migration) → Keeps Follows (create_migration p m)
unfolding create_migration
create_move p none = Keeps-raise _
create_move p (some m) =
    search
      (
        keeps_rules, owner-Keeps, url-Keeps, Keeps-with_transaction, undo-Follows,
        create_one-Follows,
      )
      depth 16
