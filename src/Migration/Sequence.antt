-- ===== src/Migration/Sequence.antt =====
-- core/services/migration/infrastructure/repositories/identifier.go: identifiers from a counter
-- document. The counter is 0 while its document does not exist; `attempt_sequence k` is the loop with `k`
-- attempts left, which needs no other bound.
use milton_prism.Prelude.{
  ℕ, zero, suc, ◌+◌, Bool, true, false, not, none, some, ◌==◌, if◌then◌else◌,
}
use milton_prism.Migration.Domain.{
  driver, wrapped, duplicate_key, context_done, internal, Migration,
}
use milton_prism.Migration.World.{
  Doc, World, Result, ok, err, M, pure, raise, ◌>>=◌, ◌>>◌, guard, branch, map_error, attempt, ask,
}
use milton_prism.Migration.Ports.{Ports}
use milton_prism.Migration.Store.{command, put_doc, migration_to_doc, migration_doc_to_domain}

abbrev pub initial_sequence_value : ℕ
initial_sequence_value = 10001

abbrev pub max_identifier_retries : ℕ
max_identifier_retries = 3

-- `FindOneAndUpdate($inc)` returning the document after the update; no document is an error.
unfoldable pub increment : World → Result ℕ × World
increment w =
    if w.counter == 0
    then (err internal, w)
    else (ok (w.counter + 1), record w { counter = w.counter + 1 })

-- `InsertOne` of the counter document: `false` is a duplicate key.
unfoldable pub insert_counter : World → Result Bool × World
insert_counter w =
    if w.counter == 0
    then (ok true, record w { counter = initial_sequence_value })
    else (ok false, w)

-- A value that was read, or the next way to get one.
unfoldable pub or_else : Result ℕ → M ℕ → M ℕ
or_else r next w = elim r [ ok id ↦ (ok id, w) | err e ↦ next w ]

-- One round of the loop, and `later` for the rounds after it.
unfoldable pub initialize : Ports → M ℕ → M ℕ
unfolding increment insert_counter command or_else
initialize p later = do
  done ← ask p.context_done
  guard (not done) context_done
  inserted ←
      map_error (wrapped "counters: failed to initialize sequence") (command p insert_counter)
  bumped ← attempt (branch inserted (pure initial_sequence_value) (command p increment))
  or_else bumped later

unfoldable pub attempt_sequence : Ports → ℕ → M ℕ
unfolding initialize
attempt_sequence p zero = raise (wrapped "counters: max retries exceeded" internal)
attempt_sequence p (suc k) = initialize p (attempt_sequence p k)

unfoldable pub generate_identifier : Ports → M ℕ
unfolding attempt_sequence or_else
generate_identifier p = do
  first ← attempt (command p increment)
  or_else first (attempt_sequence p max_identifier_retries)

-- `InsertOne` of the new document; the unique index refuses an identifier that is taken.
unfoldable pub insert_doc : ℕ → Doc → World → Result (Unit {0}) × World
insert_doc id d w = elim (w.docs id) [
  | none ↦ (ok tt, put_doc w id d)
  | some _ ↦ (err duplicate_key, w)
]

unfoldable pub create : Ports → Migration → M Migration
unfolding generate_identifier insert_doc
create p m = do
  id ← map_error (wrapped "migration: identifier") (generate_identifier p)
  let doc = migration_to_doc m
  map_error (wrapped "migration: insert failed") (command p (insert_doc id doc))
  pure (migration_doc_to_domain id doc)

-- mongo_transaction_manager.go: the body runs in a transaction, which the driver rolls back on an
-- error of the body or of the commit; where no session can be started it runs outside of one.
unfoldable pub roll_back : World → World → World
roll_back w w' = record w' { docs = w.docs; counter = w.counter }

-- The end of the transaction that was begun in `w₀`, or that could not be.
unfoldable pub settle_transaction :
    {A : Type 0} → Ports → Bool → World → Result A × World → Result A × World
unfolding roll_back
settle_transaction p true w₀ (ok a, w₁) = elim (p.db_fault w₁.clock) [
  | none ↦ (ok a, record w₁ { clock = w₁.clock + 1 })
  | some e ↦ (err (driver e), roll_back w₀ (record w₁ { clock = w₁.clock + 1 }))
]
settle_transaction p true w₀ (err e, w₁) = (err e, roll_back w₀ w₁)
settle_transaction p false w₀ x = x

unfoldable pub with_transaction : {A : Type 0} → Ports → M A → M A
unfolding settle_transaction
with_transaction p body w =
    let w₀ = record w { clock = w.clock + 1 } in
    settle_transaction p (p.session_starts w.clock) w₀ (body w₀)
