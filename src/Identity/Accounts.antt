-- ===== src/Identity/Accounts.antt =====
-- core/services/identity/application/service.go: GetUser, UpdateUser and DeleteUser.
use milton_prism.Prelude.{ℕ, String, not, List, [], ◌∷◌, ◌==◌, if◌then◌else◌, str_eq}
use milton_prism.Identity.World.{
  User, Error, missing_identifier, user_not_found, internal, M, pure, ◌>>=◌, ◌>>◌, guard, map_error,
  Ports,
}
use milton_prism.Identity.Users.{get_by_id, update, soft_delete}

-- ErrUserNotFound is returned as it is, any other error as ErrInternal.
abbrev pub or_internal : Error → Error
or_internal user_not_found = user_not_found
or_internal _ = internal

unfoldable pub get_user : Ports → ℕ → M User
unfolding get_by_id
get_user p id = do
  guard (not (id == 0)) missing_identifier
  d ← map_error or_internal (get_by_id p id)
  pure d.user

-- One path of the mask; an unknown path changes nothing.
unfoldable pub apply_path : String → User → User → User
apply_path path u old =
    if str_eq path "email"
    then record old { email = u.email }
    else if str_eq path "display_name"
    then record old { display_name = u.display_name }
    else if str_eq path "system_user"
    then record old { system_user = u.system_user }
    else if str_eq path "state"
    then record old { state = u.state }
    else old

unfoldable pub apply_paths : List String → User → User → User
unfolding apply_path
apply_paths [] u old = old
apply_paths (p ∷ ps) u old = apply_paths ps u (apply_path p u old)

abbrev pub mutable_fields : List String
mutable_fields = "email" ∷ "display_name" ∷ "system_user" ∷ "state" ∷ []

-- An empty mask stands for all the fields.
abbrev pub effective_paths : List String → List String
effective_paths [] = mutable_fields
effective_paths (p ∷ ps) = p ∷ ps

unfoldable pub apply_mask : List String → User → User → User
unfolding apply_paths
apply_mask mask u old = apply_paths (effective_paths mask) u old

unfoldable pub update_user : Ports → User → List String → M User
unfolding get_by_id update apply_mask
update_user p u mask = do
  guard (not (u.identifier == 0)) missing_identifier
  d ← map_error or_internal (get_by_id p u.identifier)
  let changed = apply_mask mask u d.user
  map_error or_internal (update p changed)
  pure changed

unfoldable pub delete_user : Ports → ℕ → M (Unit {0})
unfolding soft_delete
delete_user p id = do
  guard (not (id == 0)) missing_identifier
  map_error or_internal (soft_delete p id)
