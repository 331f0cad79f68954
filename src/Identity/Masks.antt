-- ===== src/Identity/Masks.antt =====
-- UpdateUser: what it returns is what is stored, and a field that the mask leaves out stays.
use milton_prism.Prelude.{
  ◌&&◌, ◌+◌, ℕ, String, true, false, not, some, List, [], ◌∷◌, ◌≡◌, refl, sym, ◌∙◌, ap, subst, ◌==◌,
  All, str_eq, if_ind, if_false, if◌then◌else◌,
}
use milton_prism.Identity.World.{
  User, UserDoc, World, missing_identifier, ok, M, ◌>>=◌, ◌>>◌, pure, map_error, Ports,
}
use milton_prism.Identity.Users.{
  email_taken, find_one, update_one, live_with, get_by_id, update, set_fields, find_user, command,
}
use milton_prism.Identity.Accounts.{
  or_internal, get_user, update_user, apply_path, apply_paths, apply_mask, effective_paths,
}
use milton_prism.Identity.Lookup.{
  find_one-passes, pair-ok, next-ok, guard-ok, relabel-ok, read-ok, write-ok, find-update,
  live_with-id,
}

-- The fields that no path of the mask changes.
abbrev Untouched : User → User → Type 0
Untouched a b =
    (a.identifier ≡ b.identifier) × (a.create_time ≡ b.create_time) × (a.purge_time ≡ b.purge_time)

apply_path-Untouched : (path : String) (u old : User) → Untouched (apply_path path u old) old
unfolding apply_path
apply_path-Untouched path u old =
    let P = λ (x : User). Untouched x old in
    let kept : Untouched old old = (refl, refl, refl) in
    let last = if str_eq path "state" then record old { state = u.state } else old in
    let third =
      if str_eq path "system_user" then record old { system_user = u.system_user } else last in
    let second =
      if str_eq path "display_name" then record old { display_name = u.display_name } else third in
    if_ind P (str_eq path "email") (record old { email = u.email }) second kept
      (if_ind P (str_eq path "display_name") (record old { display_name = u.display_name }) third
        kept
        (if_ind P (str_eq path "system_user") (record old { system_user = u.system_user }) last kept
          (if_ind P (str_eq path "state") (record old { state = u.state }) old kept kept)))

apply_paths-Untouched : (ps : List String) (u old : User) → Untouched (apply_paths ps u old) old
unfolding apply_paths
apply_paths-Untouched [] u old = (refl, refl, refl)
apply_paths-Untouched (p ∷ ps) u old =
    let (a, b, c) = apply_paths-Untouched ps u (apply_path p u old) in
    let (x, y, z) = apply_path-Untouched p u old in (a ∙ x, b ∙ y, c ∙ z)

-- A path that is neither of the two rights.
abbrev pub IsHarmless : String → Type 0
IsHarmless path = (str_eq path "system_user" ≡ false) × (str_eq path "state" ≡ false)

-- The rights of a user: the mark of a system user and the state.
abbrev pub SameRights : User → User → Type 0
SameRights a b = (a.system_user ≡ b.system_user) × (a.state ≡ b.state)

apply_path-rights :
    (path : String) (u old : User) → IsHarmless path → SameRights (apply_path path u old) old
unfolding apply_path
apply_path-rights path u old h =
    let last = if str_eq path "state" then record old { state = u.state } else old in
    let third =
      if str_eq path "system_user" then record old { system_user = u.system_user } else last in
    let second =
      if str_eq path "display_name" then record old { display_name = u.display_name } else third in
    let kept : third ≡ old =
      if_false (str_eq path "system_user") (record old { system_user = u.system_user }) last h.0
      ∙ if_false (str_eq path "state") (record old { state = u.state }) old h.1 in
    if_ind (λ (x : User). SameRights x old) (str_eq path "email") (record old { email = u.email })
      second (refl, refl)
      (if_ind (λ (x : User). SameRights x old) (str_eq path "display_name")
        (record old { display_name = u.display_name }) third (refl, refl)
        (subst (λ (x : User). SameRights x old) (sym kept) (refl, refl)))

apply_paths-rights :
    (ps : List String) (u old : User) → All IsHarmless ps → SameRights (apply_paths ps u old) old
unfolding apply_paths
apply_paths-rights [] u old h = (refl, refl)
apply_paths-rights (p ∷ ps) u old h =
    let here = apply_path-rights p u old h.0 in
    let rest = apply_paths-rights ps u (apply_path p u old) h.1 in
    (rest.0 ∙ here.0, rest.1 ∙ here.1)

-- What a successful update did.
record Updates (u : User) (mask : List String) (now : ℕ) (w v : World) (r : User) (d : UserDoc)
    : Type 0 where
  pub stored : find_one (live_with u.identifier) w.users ≡ some d
  pub result : r ≡ apply_mask mask u d.user
  pub identified : not (u.identifier == 0) ≡ true
  pub after : v.users ≡ update_one (live_with u.identifier) (set_fields r now) w.users

-- UpdateUser behind its read.
abbrev write_back : Ports → User → List String → UserDoc → M User
write_back p u mask d =
    map_error or_internal (update p (apply_mask mask u d.user)) >> pure (apply_mask mask u d.user)

-- The write behind the read, as of the world before both.
writes_same :
    (p : Ports) (w w1 : World) (i j : ℕ) (c r : User)
    → i ≡ j
    → c ≡ r
    → w1 ≡ record w { clock = w.clock + 1 }
    → update_one (live_with i) (set_fields c (p.now w1.clock)) w1.users
      ≡ update_one (live_with j) (set_fields r (p.now (w.clock + 1))) w.users
writes_same p w w1 i j c r e f g =
    subst
      (λ (x : World).
        update_one (live_with i) (set_fields c (p.now x.clock)) x.users
        ≡ update_one (live_with j) (set_fields r (p.now (w.clock + 1))) w.users)
      (sym g) (cc (e, f))

update_user-Updates :
    (p : Ports) (u : User) (mask : List String) (w v : World) (r : User)
    → update_user p u mask w ≡ (ok r, v)
    → (d : UserDoc) × Updates u mask (p.now (w.clock + 1)) w v r d
unfolding update_user get_by_id update apply_mask
update_user-Updates p u mask w v r h =
    let (a, h1) =
      guard-ok (not (u.identifier == 0)) missing_identifier
        (map_error or_internal (get_by_id p u.identifier) >>= write_back p u mask) w r v h in
    let (d, w1, b, h2) =
      next-ok (map_error or_internal (get_by_id p u.identifier) w) (write_back p u mask) r v h1 in
    let (q, same) =
      read-ok p (live_with u.identifier) w w1 d
        (relabel-ok or_internal (get_by_id p u.identifier w) d w1 b) in
    let changed = apply_mask mask u d.user in
    let (x, w2, c, h3) =
      next-ok (map_error or_internal (update p changed) w1) (λ _. pure changed) r v h2 in
    let (d', q', after) =
      write-ok p (p.email_indexed && email_taken changed w1.users) (live_with changed.identifier)
        (set_fields changed (p.now w1.clock)) w1 w2 x
        (relabel-ok or_internal (update p changed w1) x w2 c) in
    let (e, f) = pair-ok changed r w2 v h3 in
    let id_same : changed.identifier ≡ u.identifier =
      (apply_paths-Untouched (effective_paths mask) u d.user).0
      ∙ live_with-id u.identifier d (find_one-passes (live_with u.identifier) w.users d q) in
    (
      d,
      record {
        stored = q;
        result = sym e;
        identified = a;
        after =
            sym (ap (λ (x : World). x.users) f)
            ∙ ap (λ (x : World). x.users) after
            ∙ writes_same p w w1 changed.identifier u.identifier changed r id_same e same;
      },
    )

rebuilt :
    (r : User) (now : ℕ) (d : UserDoc)
    → Untouched r d.user
    → (set_fields r now d).user ≡ record r { update_time = some now }
unfolding set_fields
rebuilt r now d (e, f, g) = cc (e, f, g)

keeps_filter :
    (id : ℕ) (r : User) (now : ℕ) (x : UserDoc)
    → live_with id x ≡ true
    → live_with id (set_fields r now x) ≡ true
unfolding set_fields
keeps_filter id r now x h = h

get_user_lem :
    (p : Ports) (id : ℕ) (v : World) (d : UserDoc)
    → not (id == 0) ≡ true
    → p.db_fault v.clock ≡ false
    → find_one (live_with id) v.users ≡ some d
    → (get_user p id v).0 ≡ ok d.user
unfolding get_user get_by_id
get_user_lem p id v d a quiet e = rw (a, quiet, e, ◌>>=◌, ◌>>◌, map_error, command, find_user) refl

-- The user behind a successful update.
stored_after :
    (p : Ports) (u : User) (mask : List String) (w v : World) (r : User) (d : UserDoc)
    → Updates u mask (p.now (w.clock + 1)) w v r d
    → find_one (live_with u.identifier) v.users ≡ some (set_fields r (p.now (w.clock + 1)) d)
stored_after p u mask w v r d done =
    let now = p.now (w.clock + 1) in
    ap (λ (x : List UserDoc). find_one (live_with u.identifier) x) done.after
    ∙ find-update (live_with u.identifier) (set_fields r now) w.users d
        (keeps_filter u.identifier r now) done.stored

-- Where the database answers the read behind it, GetUser returns the user that UpdateUser returned, save
-- for its update time, which is the time of the write.
pub update_user-reads_back :
    (p : Ports) (u : User) (mask : List String) (w v : World) (r : User)
    → update_user p u mask w ≡ (ok r, v)
    → p.db_fault v.clock ≡ false
    → (get_user p u.identifier v).0 ≡ ok (record r { update_time = some (p.now (w.clock + 1)) })
unfolding apply_mask
update_user-reads_back p u mask w v r h quiet =
    let (d, done) = update_user-Updates p u mask w v r h in
    let now = p.now (w.clock + 1) in
    let kept : Untouched r d.user =
      subst (λ (x : User). Untouched x d.user) (sym done.result)
        (apply_paths-Untouched (effective_paths mask) u d.user) in
    get_user_lem p u.identifier v (set_fields r now d) done.identified quiet
      (stored_after p u mask w v r d done)
    ∙ ap (λ (x : User). ok x) (rebuilt r now d kept)

-- The live user of the identifier has the same rights before and after, and so has the user returned.
pub record KeptRights (id : ℕ) (w v : World) (r : User) : Type 0 where
  pub before : UserDoc
  pub behind : UserDoc
  pub stored : find_one (live_with id) w.users ≡ some before
  pub stored_then : find_one (live_with id) v.users ≡ some behind
  pub same : SameRights behind.user before.user
  pub same_returned : SameRights r before.user

rights_written :
    (r : User) (now : ℕ) (d : UserDoc)
    → SameRights r d.user
    → SameRights (set_fields r now d).user d.user
unfolding set_fields
rights_written r now d h = h

-- After an UpdateUser whose mask is not empty and names neither `system_user` nor `state`, the stored user
-- has the rights it had before, and the user returned has them too.
pub update_user-keeps_rights :
    (p : Ports) (u : User) (path : String) (more : List String) (w v : World) (r : User)
    → update_user p u (path ∷ more) w ≡ (ok r, v)
    → All IsHarmless (path ∷ more)
    → KeptRights u.identifier w v r
unfolding apply_mask
update_user-keeps_rights p u path more w v r h names =
    let (d, done) = update_user-Updates p u (path ∷ more) w v r h in
    let now = p.now (w.clock + 1) in
    let kept : SameRights r d.user =
      subst (λ (x : User). SameRights x d.user) (sym done.result)
        (apply_paths-rights (path ∷ more) u d.user names) in
    record {
      before = d;
      behind = set_fields r now d;
      stored = done.stored;
      stored_then = stored_after p u (path ∷ more) w v r d done;
      same = rights_written r now d kept;
      same_returned = kept;
    }
