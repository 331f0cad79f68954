-- ===== src/Migration/Lifecycle.antt =====
-- core/services/migration/application/service.go: creating, reading, deleting and cancelling.
use milton_prism.Prelude.{ℕ, String, Bool, true, false, not, Option, none, some, List, ◌==◌}
use milton_prism.Migration.Domain.{
  State, pending, generating, ready, failed, cancelled, Language, Database, TargetConfig,
  missing_identifier, missing_payload, missing_owner_user_id, missing_repository_id,
  invalid_target_config, invalid_state_transition, wrapped, GenerationRecord, Migration,
  is_terminal_state,
}
use milton_prism.Migration.World.{
  Result, ok, err, M, pure, raise, ◌>>=◌, ◌>>◌, guard, branch, if_wired, map_error, ask,
  from_result, from_error,
}
use milton_prism.Migration.Ports.{Ports}
use milton_prism.Migration.Store.{get_by_id, update_state, soft_delete}
use milton_prism.Migration.Sequence.{create, with_transaction}

-- `m.GetTarget() == nil || … == Unspecified || … == Unspecified`
unfoldable pub is_valid_target : Option TargetConfig → Bool
is_valid_target none = false
is_valid_target (some t) = elim t.language [
  | Language.unset ↦ false
  | _ ↦ elim t.database [ Database.unset ↦ false | _ ↦ true ]
]

-- `if s.identity != nil { … }`
unfoldable pub validate_owner : Ports → ℕ → M Unit
validate_owner p owner =
    if_wired p.identity (λ validate. do answer ← ask (λ t. validate t owner); from_error answer)
      (pure tt)

-- `if s.repoSvc != nil { … }`: the snapshot of the URL, or the one that was sent.
unfoldable pub resolve_url : Ports → Migration → M String
resolve_url p m =
    if_wired p.repo_svc
      (λ client. do
        answer ← ask (λ t. client.fetch_repository_url t m.repository_id)
        from_result answer)
      (pure m.repository_url)

unfoldable pub create_migration : Ports → Option Migration → M Migration
unfolding is_valid_target validate_owner resolve_url create with_transaction
create_migration p none = raise missing_payload
create_migration p (some m) = do
  guard (not (m.owner_user_id == 0)) missing_owner_user_id
  guard (not (m.repository_id == 0)) missing_repository_id
  guard (is_valid_target m.target) invalid_target_config
  validate_owner p m.owner_user_id
  url ← resolve_url p m
  let fresh = record m { repository_url = url; state = pending }
  map_error (wrapped "create migration") (with_transaction p (create p fresh))

-- The generation records are read in GENERATING, READY and FAILED; a failure to read them is logged.
unfoldable pub shows_records : State → Bool
shows_records generating = true
shows_records ready = true
shows_records failed = true
shows_records _ = false

unfoldable pub attach : Migration → Result (List GenerationRecord) → Migration
attach m (ok records) = record m { generation_records = records }
attach m (err e) = m

unfoldable pub load_records : Ports → Migration → M Migration
unfolding attach
load_records p m =
    if_wired p.read_results
      (λ read. do answer ← ask (λ t. read t m.identifier); pure (attach m answer)) (pure m)

unfoldable pub get_migration : Ports → ℕ → M Migration
unfolding shows_records load_records get_by_id
get_migration p id = do
  guard (not (id == 0)) missing_identifier
  m ← get_by_id p id false
  branch (shows_records m.state) (load_records p m) (pure m)

unfoldable pub delete_migration : Ports → ℕ → M Unit
unfolding get_by_id soft_delete
delete_migration p id = do
  guard (not (id == 0)) missing_identifier
  m ← get_by_id p id false
  guard (is_terminal_state m.state) invalid_state_transition
  soft_delete p id

-- CancelMigration behind its read: what happens once the record `m` is at hand.
unfoldable pub cancel_checked : Ports → ℕ → Migration → M Migration
unfolding update_state
cancel_checked p id m = do
  guard (not (is_terminal_state m.state)) invalid_state_transition
  update_state p id cancelled
  pure (record m { state = cancelled })

unfoldable pub cancel_migration : Ports → ℕ → M Migration
unfolding get_by_id cancel_checked
cancel_migration p id = do
  guard (not (id == 0)) missing_identifier
  m ← get_by_id p id false
  cancel_checked p id m
