-- ===== src/Identity/Access.antt =====
-- core/services/identity/application/service.go: AuthenticateUser, RefreshToken and Logout, with the
-- session store that session_store.go adapts.
use milton_prism.Prelude.{
  ℕ, ◌+◌, String, Bool, true, false, not, Option, none, some, ◌==◌, if◌then◌else◌, str_eq, is_empty,
}
use milton_prism.Identity.World.{
  User, Session, Error, missing_email, missing_password, user_not_found, invalid_credentials,
  user_not_active, account_suspended, invalid_token, invalid_session, internal, token_generation,
  token_refresh, panic, Result, ok, err, M, pure, raise, ◌>>=◌, ◌>>◌, guard, map_error, answer, ask,
  call, try_call, Tokens, TokenManager, SessionStore, Ports,
}
use milton_prism.Identity.Users.{get_by_id, get_credentials_by_email}

-- SessionStoreAdapter.Save: with an error nothing is stored.
unfoldable pub save_session : SessionStore → String → ℕ → Bool → M (Unit {0})
save_session store id user_id system_user w =
    let w' = record w { clock = w.clock + 1 } in
    if store.save_fault w.clock then (err internal, w') else (
      ok tt,
      record w' {
        sessions = λ k.
            if str_eq id k
            then some (record { user_id = user_id; system_user = system_user })
            else w.sessions k;
      },
    )

-- SessionStoreAdapter.Get, and the test behind it: an absent or an invalid session is
-- ErrInvalidSession.
abbrev pub checked : Bool → Option Session → Result Session
checked false o = err invalid_session
checked true o = answer invalid_session o

unfoldable pub get_session : SessionStore → String → M Session
get_session store id w = (
  if store.get_fault w.clock
      then err invalid_session
      else checked (store.is_valid w.clock id) (w.sessions id),
  record w { clock = w.clock + 1 },
)

-- SessionStoreAdapter.Delete: a session that cannot be read is left, without an error.
unfoldable pub delete_session : SessionStore → String → M (Unit {0})
delete_session store id w =
    let w' = record w { clock = w.clock + 1 } in
    if store.get_fault w.clock then (ok tt, w') else elim (w.sessions id) [
      | none ↦ (ok tt, w')
      | some s ↦
          if store.delete_fault w.clock
          then (err internal, w')
          else (ok tt, record w' { sessions = λ k. if str_eq id k then none else w.sessions k })
    ]

-- ErrUserNotFound becomes ErrInvalidCredentials, any other error ErrInternal.
abbrev pub or_invalid : Error → Error
or_invalid user_not_found = invalid_credentials
or_invalid _ = internal

abbrev pub hash_of : Option String → String
hash_of none = ""
hash_of (some h) = h

-- `if s.hasher != nil { … Verify … }`
abbrev pub verified : Option (String → String → Bool) → String → String → Bool
verified none hash plain = true
verified (some verify) hash plain = verify hash plain

abbrev pub save_if_wired : Option SessionStore → String → User → M (Unit {0})
save_if_wired none id u = pure tt
save_if_wired (some store) id u = save_session store id u.identifier u.system_user

-- AuthenticateUser behind the checks of the credentials.
unfoldable pub open_session : Ports → User → M Tokens
unfolding save_session
open_session p u w = elim p.tokens [
  | none ↦ raise token_generation w
  | some manager ↦
      (do
        id ← ask internal p.random_id
        tokens ← ask token_generation (λ t. manager.new_tokens t u.identifier u.system_user id)
        save_if_wired p.sessions id u
        pure tokens)
        w
]

unfoldable pub authenticate_user : Ports → String → String → M Tokens
unfolding get_credentials_by_email open_session
authenticate_user p email plain = do
  guard (not (is_empty email)) missing_email
  guard (not (is_empty plain)) missing_password
  d ← map_error or_invalid (get_credentials_by_email p email)
  guard (not (d.user.state == 3)) user_not_active
  guard (not (d.user.state == 2)) account_suspended
  guard (verified p.verify (hash_of d.password_hash) plain) invalid_credentials
  open_session p d.user

-- A nil session store is dereferenced.
abbrev pub session_or_panic : Option SessionStore → String → M Session
session_or_panic none id = raise panic
session_or_panic (some store) id = get_session store id

-- Any error of the look-up is ErrUserNotFound.
abbrev pub not_found : Error → Error
not_found _ = user_not_found

-- A refresh token that is not valid is ErrInvalidToken.
abbrev pub extracted : Option String → M String
extracted o w = (answer invalid_token o, w)

unfoldable pub refresh_with : Ports → TokenManager → String → M Tokens
unfolding get_by_id get_session
refresh_with p manager raw = do
  id ← extracted (manager.extract_session_id raw)
  s ← session_or_panic p.sessions id
  d ← map_error not_found (get_by_id p s.user_id)
  try_call (λ t. manager.revoke_fault t raw)
  ask token_refresh (λ t. manager.new_tokens t d.user.identifier d.user.system_user id)

abbrev pub refresh_if_wired : Ports → String → Option TokenManager → M Tokens
refresh_if_wired p raw none = raise token_refresh
refresh_if_wired p raw (some manager) = refresh_with p manager raw

unfoldable pub refresh_token : Ports → String → M Tokens
unfolding refresh_with
refresh_token p raw = do guard (not (is_empty raw)) invalid_token; refresh_if_wired p raw p.tokens

abbrev pub end_session : Option SessionStore → String → M (Unit {0})
end_session none id w = pure tt w
end_session (some store) id w = if is_empty id then pure tt w else delete_session store id w

abbrev pub revoke_access : Option TokenManager → String → M (Unit {0})
revoke_access none token w = pure tt w
revoke_access (some manager) token w =
    if is_empty token then pure tt w else call internal (λ t. manager.revoke_fault t token) w

unfoldable pub logout : Ports → String → String → M (Unit {0})
unfolding delete_session
logout p id token = do end_session p.sessions id; revoke_access p.tokens token
