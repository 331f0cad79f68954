-- ===== src/Identity/Users.antt =====
-- core/services/identity/infrastructure/repositories/mongo_user_repository.go: reads and writes of the
-- collection of users. `FindOne` and `UpdateOne` take the first document that passes the filter.
use milton_prism.Prelude.{
  ◌||◌, false, ℕ, ◌+◌, String, Bool, true, not, ◌&&◌, Option, none, some, List, [], ◌∷◌, ◌==◌,
  if◌then◌else◌, str_eq,
}
use milton_prism.Identity.World.{
  User, UserDoc, World, user_not_found, driver, Result, ok, err, M, Ports,
}

abbrev pub live_with : ℕ → UserDoc → Bool
live_with id d = (d.user.identifier == id) && not d.deleted

abbrev pub live_at : String → UserDoc → Bool
live_at email d = str_eq d.user.email email && not d.deleted

unfoldable pub find_one : (UserDoc → Bool) → List UserDoc → Option UserDoc
find_one filter [] = none
find_one filter (d ∷ ds) = let later = find_one filter ds in if filter d then some d else later

unfoldable pub update_one : (UserDoc → Bool) → (UserDoc → UserDoc) → List UserDoc → List UserDoc
update_one filter set [] = []
update_one filter set (d ∷ ds) =
    let later = update_one filter set ds in if filter d then set d ∷ ds else d ∷ later

-- A command fails at the driver, or it is executed.
abbrev pub command : {A : Type 0} → Ports → (World → Result A × World) → M A
command p run w =
    let w' = record w { clock = w.clock + 1 } in
    if p.db_fault w.clock then (err driver, w') else run w'

abbrev pub found : Option UserDoc → Result UserDoc
found none = err user_not_found
found (some d) = ok d

unfoldable pub find_user : (UserDoc → Bool) → World → Result UserDoc × World
unfolding find_one
find_user filter w = (found (find_one filter w.users), w)

-- `MatchedCount == 0` is ErrUserNotFound; a document that a unique index refuses is the driver's error.
abbrev pub written :
    Option UserDoc
    → Bool
    → (UserDoc → Bool)
    → (UserDoc → UserDoc)
    → World
    → Result (Unit {0}) × World
written none refused filter set w = (err user_not_found, w)
written (some d) true filter set w = (err driver, w)
written (some d) false filter set w = (ok tt, record w { users = update_one filter set w.users })

unfoldable pub write_user :
    Bool → (UserDoc → Bool) → (UserDoc → UserDoc) → World → Result (Unit {0}) × World
unfolding find_one update_one
write_user refused filter set w = written (find_one filter w.users) refused filter set w

-- Another document, deleted or not, has the email.
unfoldable pub email_taken : User → List UserDoc → Bool
email_taken u [] = false
email_taken u (d ∷ ds) =
    (str_eq d.user.email u.email && not (d.user.identifier == u.identifier)) || email_taken u ds

unfoldable pub get_by_id : Ports → ℕ → M UserDoc
unfolding find_user
get_by_id p id = command p (find_user (live_with id))

unfoldable pub get_credentials_by_email : Ports → String → M UserDoc
unfolding find_user
get_credentials_by_email p email = command p (find_user (live_at email))

-- The `$set` of Update: the four fields that a user may change, and the time of the write.
unfoldable pub set_fields : User → ℕ → UserDoc → UserDoc
set_fields u now d = record d {
  user = record d.user {
    email = u.email;
    display_name = u.display_name;
    system_user = u.system_user;
    state = u.state;
    update_time = some now;
  };
}

unfoldable pub update : Ports → User → M (Unit {0})
unfolding write_user email_taken set_fields
update p u w =
    command p
      (write_user (p.email_indexed && email_taken u w.users) (live_with u.identifier)
        (set_fields u (p.now w.clock)))
      w

abbrev pub state_deleted : ℕ
state_deleted = 3

unfoldable pub mark_deleted : ℕ → UserDoc → UserDoc
mark_deleted now d = record d {
  user = record d.user { state = state_deleted; update_time = some now };
  deleted = true;
}

unfoldable pub soft_delete : Ports → ℕ → M (Unit {0})
unfolding write_user mark_deleted
soft_delete p id w = command p (write_user false (live_with id) (mark_deleted (p.now w.clock))) w
