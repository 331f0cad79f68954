-- ===== src/Identity/Renewal.antt =====
-- RefreshToken at a user in any state.
use milton_prism.Prelude.{
  ℕ, ◌+◌, String, true, false, Option, some, ◌≡◌, refl, sym, subst, is_empty,
}
use milton_prism.Identity.World.{
  UserDoc, Session, World, ok, ◌>>=◌, ◌>>◌, map_error, Ports, Tokens, TokenManager, SessionStore,
}
use milton_prism.Identity.Users.{find_one, live_with, get_by_id, find_user, command}
use milton_prism.Identity.Access.{
  refresh_token, refresh_with, refresh_if_wired, session_or_panic, get_session,
}

session_read :
    (store : SessionStore) (o : Option SessionStore) (id : String) (s : Session) (w : World)
    → store.get_fault w.clock ≡ false
    → store.is_valid w.clock id ≡ true
    → w.sessions id ≡ some s
    → o ≡ some store
    → session_or_panic o id w ≡ (ok s, record w { clock = w.clock + 1 })
unfolding get_session
session_read store o id s w f g i e =
    subst
      (λ (x : Option SessionStore).
        session_or_panic x id w ≡ (ok s, record w { clock = w.clock + 1 }))
      (sym e) (rw (f, g, i, get_session) refl)

-- RefreshToken does not look at the state of the user: while the ports answer, a live user in any state,
-- suspended included, is given the tokens that the manager makes.
pub refresh_token-any_state :
    (p : Ports) (store : SessionStore) (manager : TokenManager) (raw id : String) (s : Session)
    (d : UserDoc) (w : World) (tokens : Tokens)
    → p.sessions ≡ some store
    → p.tokens ≡ some manager
    → is_empty raw ≡ false
    → manager.extract_session_id raw ≡ some id
    → ((t : ℕ) → store.get_fault t ≡ false)
    → ((t : ℕ) → store.is_valid t id ≡ true)
    → ((t : ℕ) → p.db_fault t ≡ false)
    → w.sessions id ≡ some s
    → find_one (live_with s.user_id) w.users ≡ some d
    → ((t : ℕ) → manager.new_tokens t d.user.identifier d.user.system_user id ≡ some tokens)
    → (refresh_token p raw w).0 ≡ ok tokens
unfolding refresh_token refresh_with get_session get_by_id
refresh_token-any_state p store manager raw id s d w tokens a b c e f g h i j k =
    rw (c, ◌>>=◌, ◌>>◌)
      (subst (λ (o : Option TokenManager). (refresh_if_wired p raw o w).0 ≡ ok tokens) (sym b)
        (rw (e, ◌>>=◌)
          (rw (session_read store p.sessions id s w (f w.clock) (g w.clock) i a, ◌>>=◌)
            (rw (h (w.clock + 1), j, ◌>>=◌, ◌>>◌, map_error, command, find_user)
              (rw (k (w.clock + 1 + 1 + 1)) refl)))))
