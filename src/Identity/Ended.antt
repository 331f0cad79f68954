-- ===== src/Identity/Ended.antt =====
-- Which sessions a refresh token still opens: none that was ended, and none of a deleted user.
use milton_prism.Prelude.{
  ℕ, ◌+◌, String, Bool, true, false, not, Option, none, some, ◌≡◌, refl, sym, ◌∙◌, ap, subst, inl,
  inr, Bool-cases, Option-cases, is_empty, eq_iff, ◌==◌,
}
use milton_prism.Identity.World.{
  UserDoc, Session, World, Error, Result, ok, err, M, next, ◌>>=◌, ◌>>◌, map_error, answer,
  try_call, ask, Ports, Tokens, TokenManager, SessionStore, invalid_token, invalid_session,
  token_refresh, missing_identifier,
}
use milton_prism.Identity.Users.{find_one, live_with, get_by_id, soft_delete, mark_deleted}
use milton_prism.Identity.Accounts.{delete_user, or_internal}
use milton_prism.Identity.Access.{
  refresh_token, refresh_with, refresh_if_wired, extracted, session_or_panic, get_session, checked,
  not_found, logout, end_session, delete_session, revoke_access,
}
use milton_prism.Identity.Lookup.{
  AreUnique, next-ok, guard-ok, relabel-ok, read-ok, write-ok, find-deleted,
}

-- What stands behind a refresh that succeeds.
pub record IsBacked (p : Ports) (raw : String) (w : World) (manager : TokenManager) (id : String)
    (s : Session) (d : UserDoc) : Type 0 where
  pub wired : p.tokens ≡ some manager
  pub extracts : manager.extract_session_id raw ≡ some id
  pub opened : w.sessions id ≡ some s
  pub stored : find_one (live_with s.user_id) w.users ≡ some d

-- RefreshToken behind the session and behind the user.
abbrev renewed : Ports → TokenManager → String → String → UserDoc → M Tokens
renewed p manager raw id d =
    try_call (λ t. manager.revoke_fault t raw)
    >> ask token_refresh (λ t. manager.new_tokens t d.user.identifier d.user.system_user id)

abbrev for_session : Ports → TokenManager → String → String → Session → M Tokens
for_session p manager raw id s =
    map_error not_found (get_by_id p s.user_id) >>= renewed p manager raw id

answer-ok :
    {A : Type 0} (e : Error) (o : Option A) (w v : World) (a : A)
    → ◌≡◌ {A = Result A × World} (answer e o, w) (ok a, v)
    → (o ≡ some a) × (v ≡ w)
answer-ok e none w v a h = cc h
answer-ok e (some x) w v a h = (cc h, cc h)

checked-ok :
    (b : Bool) (o : Option Session) (w v : World) (s : Session)
    → ◌≡◌ {A = Result Session × World} (checked b o, w) (ok s, v)
    → (o ≡ some s) × (v ≡ w)
checked-ok false o w v s h = cc h
checked-ok true o w v s h = answer-ok invalid_session o w v s h

session-ok :
    (o : Option SessionStore) (id : String) (w v : World) (s : Session)
    → session_or_panic o id w ≡ (ok s, v)
    → (w.sessions id ≡ some s) × (v ≡ record w { clock = w.clock + 1 })
unfolding get_session
session-ok none id w v s h = cc h
session-ok (some store) id w v s h = elim (Bool-cases (store.get_fault w.clock)) [
  | inl q ↦ absurd (cc (rw q at h))
  | inr q ↦
      checked-ok (store.is_valid w.clock id) (w.sessions id) (record w { clock = w.clock + 1 }) v s
        (rw q at h)
]

refresh_with-IsBacked :
    (p : Ports) (manager : TokenManager) (raw : String) (w v : World) (tokens : Tokens)
    → p.tokens ≡ some manager
    → refresh_with p manager raw w ≡ (ok tokens, v)
    → (id : String) × (s : Session) × (d : UserDoc) × IsBacked p raw w manager id s d
unfolding refresh_with get_by_id
refresh_with-IsBacked p manager raw w v tokens e h =
    let (id, w1, a, h1) =
      next-ok (extracted (manager.extract_session_id raw) w)
        (λ id. session_or_panic p.sessions id >>= for_session p manager raw id) tokens v h in
    let (s, w2, b, h2) =
      next-ok (session_or_panic p.sessions id w1) (for_session p manager raw id) tokens v h1 in
    let (d, w3, c, h3) =
      next-ok (map_error not_found (get_by_id p s.user_id) w2) (renewed p manager raw id) tokens v
        h2 in
    let (got, same1) = answer-ok invalid_token (manager.extract_session_id raw) w w1 id a in
    let (open_one, same2) = session-ok p.sessions id w1 w2 s b in
    let (there, _) =
      read-ok p (live_with s.user_id) w2 w3 d
        (relabel-ok not_found (get_by_id p s.user_id w2) d w3 c) in
    (
      id,
      s,
      d,
      record {
        wired = e;
        extracts = got;
        opened = ap (λ (x : World). x.sessions id) (sym same1) ∙ open_one;
        stored =
            ap (λ (x : World). find_one (live_with s.user_id) x.users)
              (sym (same2 ∙ ap (λ (x : World). record x { clock = x.clock + 1 }) same1))
            ∙ there;
      },
    )

wired-IsBacked :
    (p : Ports) (o : Option TokenManager) (raw : String) (w v : World) (tokens : Tokens)
    → p.tokens ≡ o
    → refresh_if_wired p raw o w ≡ (ok tokens, v)
    → (manager : TokenManager) × (id : String) × (s : Session) × (d : UserDoc) × IsBacked p raw w
        manager id s d
wired-IsBacked p none raw w v tokens e h = cc h
wired-IsBacked p (some manager) raw w v tokens e h =
    let (id, s, d, b) = refresh_with-IsBacked p manager raw w v tokens e h in (manager, id, s, d, b)

-- A refresh that succeeds has a token manager that reads a session's identifier in the token, an open
-- session under it, and a live user of that session.
pub refresh_token-IsBacked :
    (p : Ports) (raw : String) (w v : World) (tokens : Tokens)
    → refresh_token p raw w ≡ (ok tokens, v)
    → (manager : TokenManager) × (id : String) × (s : Session) × (d : UserDoc) × IsBacked p raw w
        manager id s d
unfolding refresh_token
refresh_token-IsBacked p raw w v tokens h =
    wired-IsBacked p p.tokens raw w v tokens refl
      (guard-ok (not (is_empty raw)) invalid_token (refresh_if_wired p raw p.tokens) w tokens v h).1

some-same {ℓ} : {A : Type ℓ} (o : Option A) (a b : A) → o ≡ some a → o ≡ some b → a ≡ b
some-same o a b e f = cc (e, f)

-- A refresh token that opens no session: its session is not stored.
closed_refuses :
    (p : Ports) (raw : String) (w v : World) (tokens : Tokens) (manager : TokenManager)
    (id : String)
    → p.tokens ≡ some manager
    → manager.extract_session_id raw ≡ some id
    → w.sessions id ≡ none
    → refresh_token p raw w ≡ (ok tokens, v)
    → ⊥
closed_refuses p raw w v tokens manager id e f g h =
    let (manager', id', s, d, b) = refresh_token-IsBacked p raw w v tokens h in
    let same = some-same p.tokens manager' manager b.wired e in
    let got : manager.extract_session_id raw ≡ some id' =
      subst (λ (m : TokenManager). m.extract_session_id raw ≡ some id') same b.extracts in
    let same_id = some-same (manager.extract_session_id raw) id' id got f in
    absurd (cc (subst (λ (k : String). w.sessions k ≡ some s) same_id b.opened, g))

ended-gone :
    (store : SessionStore) (id : String) (w : World)
    → store.get_fault w.clock ≡ false
    → store.delete_fault w.clock ≡ false
    → (delete_session store id w).1.sessions id ≡ none
unfolding delete_session
ended-gone store id w q f = elim (Option-cases (w.sessions id)) [
  | inl e ↦ rw (q, e, delete_session) e
  | inr (s, e) ↦ rw (q, e, delete_session, f) (rw ((eq_iff id id).1 refl) refl)
]

revoke-sessions :
    (o : Option TokenManager) (token : String) (w : World)
    → (revoke_access o token w).1.sessions ≡ w.sessions
revoke-sessions none token w = refl
revoke-sessions (some manager) token w = elim (Bool-cases (is_empty token)) [
  | inl q ↦ rw q refl
  | inr q ↦ rw q refl
]

after-sessions :
    (o : Option TokenManager) (token : String) (x : Result (Unit {0}) × World)
    → (next x (λ _. revoke_access o token)).1.sessions ≡ x.1.sessions
after-sessions o token (ok _, w) = revoke-sessions o token w
after-sessions o token (err e, w) = refl

-- A session that Logout ended, while the session store answers, opens no refresh any more.
pub logout-ends_session :
    (p : Ports) (store : SessionStore) (manager : TokenManager) (id token raw : String)
    (w v : World) (tokens : Tokens)
    → p.sessions ≡ some store
    → p.tokens ≡ some manager
    → is_empty id ≡ false
    → store.get_fault w.clock ≡ false
    → store.delete_fault w.clock ≡ false
    → manager.extract_session_id raw ≡ some id
    → ¬ (refresh_token p raw (logout p id token w).1 ≡ (ok tokens, v))
unfolding logout
logout-ends_session p store manager id token raw w v tokens e f g q r x h =
    closed_refuses p raw (logout p id token w).1 v tokens manager id f x
      (ap (λ (k : String → Option Session). k id)
          (after-sessions p.tokens token (end_session p.sessions id w))
        ∙ subst (λ (o : Option SessionStore). (end_session o id w).1.sessions id ≡ none) (sym e)
            (rw g (ended-gone store id w q r)))
      h

-- No refresh token opens a session of a user whose deletion has succeeded.
pub delete_user-ends_refresh :
    (p : Ports) (manager : TokenManager) (id : ℕ) (session raw : String) (s : Session)
    (w u v : World) (x : Unit {0}) (tokens : Tokens)
    → AreUnique w.users
    → delete_user p id w ≡ (ok x, u)
    → p.tokens ≡ some manager
    → manager.extract_session_id raw ≡ some session
    → u.sessions session ≡ some s
    → s.user_id ≡ id
    → ¬ (refresh_token p raw u ≡ (ok tokens, v))
unfolding delete_user soft_delete
delete_user-ends_refresh p manager id session raw s w u v x tokens unique h e f g k r =
    let (manager', session', s', d, b) = refresh_token-IsBacked p raw u v tokens r in
    let same = some-same p.tokens manager' manager b.wired e in
    let got : manager.extract_session_id raw ≡ some session' =
      subst (λ (m : TokenManager). m.extract_session_id raw ≡ some session') same b.extracts in
    let same_session = some-same (manager.extract_session_id raw) session' session got f in
    let same_s =
      some-same (u.sessions session) s' s
        (subst (λ (i : String). u.sessions i ≡ some s') same_session b.opened) g in
    let there : find_one (live_with id) u.users ≡ some d =
      subst (λ (i : ℕ). find_one (live_with i) u.users ≡ some d)
        (ap (λ (y : Session). y.user_id) same_s ∙ k) b.stored in
    let (_, h1) =
      guard-ok (not (id == 0)) missing_identifier (map_error or_internal (soft_delete p id)) w x u
        h in
    let (_, _, after) =
      write-ok p false (live_with id) (mark_deleted (p.now w.clock)) w u x
        (relabel-ok or_internal (soft_delete p id w) x u h1) in
    absurd (
      cc (
        there,
        ap (λ (y : World). find_one (live_with id) y.users) after
            ∙ find-deleted (p.now w.clock) id w.users unique,
      ))
