-- ===== src/Identity/Credentials.antt =====
-- AuthenticateUser gives tokens only for checked credentials.
use milton_prism.Prelude.{String, true, not, some, ◌≡◌, ◌==◌, is_empty}
use milton_prism.Identity.World.{
  ◌>>=◌, account_suspended, ◌>>◌, user_not_active, invalid_credentials, UserDoc, World, ok, M,
  guard, map_error, Ports, Tokens, missing_email, missing_password,
}
use milton_prism.Identity.Users.{find_one, live_at, get_credentials_by_email}
use milton_prism.Identity.Access.{or_invalid, authenticate_user, verified, hash_of, open_session}
use milton_prism.Identity.Lookup.{read-ok, next-ok, guard-ok, relabel-ok}

-- The user that the tokens are for.
pub record IsChecked (p : Ports) (email plain : String) (w : World) (d : UserDoc) : Type 0 where
  pub stored : find_one (live_at email) w.users ≡ some d
  pub not_deleted : not (d.user.state == 3) ≡ true
  pub not_suspended : not (d.user.state == 2) ≡ true
  pub password : verified p.verify (hash_of d.password_hash) plain ≡ true
  pub email_given : not (is_empty email) ≡ true
  pub password_given : not (is_empty plain) ≡ true

-- The parts of AuthenticateUser behind its reads.
abbrev last : Ports → String → UserDoc → M Tokens
last p plain d =
    guard (verified p.verify (hash_of d.password_hash) plain) invalid_credentials
    >> open_session p d.user

abbrev checks : Ports → String → UserDoc → M Tokens
checks p plain d =
    guard (not (d.user.state == 3)) user_not_active
    >> (guard (not (d.user.state == 2)) account_suspended >> last p plain d)

abbrev behind : Ports → String → String → M Tokens
behind p email plain = map_error or_invalid (get_credentials_by_email p email) >>= checks p plain

-- An authentication that succeeds has found a live user with the email, who is neither deleted nor
-- suspended and whose password hash was verified, if a hasher is wired.
pub authenticate_user-IsChecked :
    (p : Ports) (email plain : String) (w w' : World) (tokens : Tokens)
    → authenticate_user p email plain w ≡ (ok tokens, w')
    → (d : UserDoc) × IsChecked p email plain w d
unfolding authenticate_user get_credentials_by_email
authenticate_user-IsChecked p email plain w w' tokens h =
    let (a, h1) =
      guard-ok (not (is_empty email)) missing_email
        (guard (not (is_empty plain)) missing_password >> behind p email plain) w tokens w' h in
    let (b, h2) =
      guard-ok (not (is_empty plain)) missing_password (behind p email plain) w tokens w' h1 in
    let (d, v, c, h3) =
      next-ok (map_error or_invalid (get_credentials_by_email p email) w) (checks p plain) tokens w'
        h2 in
    let (e, h4) =
      guard-ok (not (d.user.state == 3)) user_not_active
        (guard (not (d.user.state == 2)) account_suspended >> last p plain d) v tokens w' h3 in
    let (f, h5) =
      guard-ok (not (d.user.state == 2)) account_suspended (last p plain d) v tokens w' h4 in
    let (g, _) =
      guard-ok (verified p.verify (hash_of d.password_hash) plain) invalid_credentials
        (open_session p d.user) v tokens w' h5 in
    (
      d,
      record {
        stored =
            (read-ok p (live_at email) w v d
              (relabel-ok or_invalid (get_credentials_by_email p email w) d v c)).0;
        not_deleted = e;
        not_suspended = f;
        password = g;
        email_given = a;
        password_given = b;
      },
    )
