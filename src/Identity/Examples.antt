-- ===== src/Identity/Examples.antt =====
-- The theorems of the identity service on a store with one user.
use milton_prism.Prelude.{
  ◌+◌, ℕ, String, true, false, none, some, [], ◌∷◌, ◌≡◌, refl, str_eq, if◌then◌else◌,
}
use milton_prism.Identity.World.{
  User, UserDoc, Session, World, ok, Ports, Tokens, TokenManager, SessionStore,
}
use milton_prism.Identity.Users.{
  email_taken, find_one, get_by_id, get_credentials_by_email, find_user, update, write_user,
  update_one, set_fields, soft_delete, mark_deleted,
}
use milton_prism.Identity.Accounts.{
  get_user, update_user, delete_user, apply_mask, apply_paths, apply_path,
}
use milton_prism.Identity.Access.{
  authenticate_user, refresh_token, refresh_with, logout, open_session, save_session, get_session,
}
use milton_prism.Identity.Credentials.{IsChecked, authenticate_user-IsChecked}
use milton_prism.Identity.Masks.{KeptRights, update_user-reads_back, update_user-keeps_rights}
use milton_prism.Identity.Ended.{
  IsBacked, refresh_token-IsBacked, logout-ends_session, delete_user-ends_refresh,
}
use milton_prism.Identity.Renewal.{refresh_token-any_state}

abbrev pair : Tokens
pair = record { access_token = "a"; refresh_token = "r" }

abbrev manager : TokenManager
manager = record {
  new_tokens = λ t user system id. some pair;
  extract_session_id = λ raw. some "s1";
  revoke_fault = λ t token. false;
}

abbrev store : SessionStore
store = record {
  save_fault = λ t. false;
  get_fault = λ t. false;
  is_valid = λ t id. true;
  delete_fault = λ t. false;
}

abbrev ports : Ports
ports = record {
  db_fault = λ t. false;
  now = λ t. t + 1700000000;
  email_indexed = true;
  verify = some (λ hash plain. str_eq hash plain);
  tokens = some manager;
  sessions = some store;
  random_id = λ t. some "s2";
}

abbrev ana_in : ℕ → User
ana_in state = record {
  identifier = 10001;
  email = "ana@example.org";
  display_name = "Ana";
  system_user = false;
  state = state;
  create_time = 1600000000;
  update_time = none;
  purge_time = none;
}

abbrev ana_doc : ℕ → UserDoc
ana_doc state = record { user = ana_in state; password_hash = some "secret"; deleted = false }

abbrev ana_session : Session
ana_session = record { user_id = 10001; system_user = false }

abbrev world_in : ℕ → World
world_in state = record {
  users = ana_doc state ∷ [];
  sessions = λ k. if str_eq "s1" k then some ana_session else none;
  clock = 0;
}

authenticate_user-IsChecked_example :
    (d : UserDoc) × IsChecked ports "ana@example.org" "secret" (world_in 1) d
unfolding authenticate_user get_credentials_by_email find_user find_one open_session save_session
authenticate_user-IsChecked_example =
    authenticate_user-IsChecked ports "ana@example.org" "secret" (world_in 1)
      (authenticate_user ports "ana@example.org" "secret" (world_in 1)).1 pair refl

refresh_token-IsBacked_example :
    (m : TokenManager) × (id : String) × (s : Session) × (d : UserDoc) × IsBacked ports "r"
      (world_in 1)
      m
      id
      s
      d
unfolding refresh_token refresh_with get_session get_by_id find_user find_one
refresh_token-IsBacked_example =
    refresh_token-IsBacked ports "r" (world_in 1) (refresh_token ports "r" (world_in 1)).1 pair refl

logout-ends_session_example :
    ¬ (refresh_token ports "r" (logout ports "s1" "a" (world_in 1)).1 ≡ (ok pair, world_in 1))
logout-ends_session_example =
    logout-ends_session ports store manager "s1" "a" "r" (world_in 1) (world_in 1) pair refl refl
      refl refl refl refl

delete_user-ends_refresh_example :
    ¬ (refresh_token ports "r" (delete_user ports 10001 (world_in 1)).1 ≡ (ok pair, world_in 1))
unfolding delete_user soft_delete write_user find_one update_one mark_deleted
delete_user-ends_refresh_example =
    delete_user-ends_refresh ports manager 10001 "s1" "r" ana_session (world_in 1)
      (delete_user ports 10001 (world_in 1)).1 (world_in 1) tt pair (refl, tt) refl refl refl refl
      refl

refresh_token-any_state_example : (refresh_token ports "r" (world_in 2)).0 ≡ ok pair
unfolding find_one
refresh_token-any_state_example =
    refresh_token-any_state ports store manager "r" "s1" ana_session (ana_doc 2) (world_in 2) pair
      refl refl refl refl (λ t. refl) (λ t. refl) (λ t. refl) refl refl (λ t. refl)

abbrev renamed : User
renamed = record (ana_in 1) { display_name = "Ana B." }

update_user-reads_back_example :
    (get_user ports 10001 (update_user ports renamed ("display_name" ∷ []) (world_in 1)).1).0
    ≡ ok (record renamed { update_time = some 1700000001 })
unfolding update_user get_by_id find_user find_one update write_user email_taken update_one
    set_fields apply_mask apply_paths apply_path
update_user-reads_back_example =
    update_user-reads_back ports renamed ("display_name" ∷ []) (world_in 1)
      (update_user ports renamed ("display_name" ∷ []) (world_in 1)).1 renamed refl refl

update_user-keeps_rights_example :
    KeptRights 10001
      (world_in 1)
      (update_user ports renamed ("display_name" ∷ []) (world_in 1)).1
      renamed
unfolding update_user get_by_id find_user find_one update write_user email_taken update_one
    set_fields apply_mask apply_paths apply_path
update_user-keeps_rights_example =
    update_user-keeps_rights ports renamed "display_name" [] (world_in 1)
      (update_user ports renamed ("display_name" ∷ []) (world_in 1)).1 renamed refl
      ((refl, refl), tt)
