-- ===== src/Identity/World.antt =====
-- core/services/identity: what a request runs in, the collection of users and the store of sessions, and
-- the ports of the service. Tokens, passwords and random numbers are made elsewhere.
use milton_prism.Prelude.{ℕ, ◌+◌, String, Bool, Option, none, some, List, if◌then◌else◌}

-- A time is a number, 0 for a creation time that is not set; `DeleteTime` is `deleted` of the document.
-- The number of the state is the enumeration's: 1 ACTIVE, 2 SUSPENDED, 3 DELETED.
pub record User : Type 0 where
  pub identifier : ℕ
  pub email : String
  pub display_name : String
  pub system_user : Bool
  pub state : ℕ
  pub create_time : ℕ
  pub update_time : Option ℕ
  pub purge_time : Option ℕ

-- `deleted` is `delete_time != nil`.
pub record UserDoc : Type 0 where
  pub user : User
  pub password_hash : Option String
  pub deleted : Bool

pub record Session : Type 0 where
  pub user_id : ℕ
  pub system_user : Bool

-- `clock` counts the calls that leave the process.
pub record World : Type 0 where
  pub users : List UserDoc
  pub sessions : String → Option Session
  pub clock : ℕ

pub data Error : Type 0 where
  missing_identifier missing_email missing_password user_not_found invalid_credentials : Error
  user_not_active account_suspended invalid_token invalid_session internal : Error
  token_generation token_refresh driver panic : Error

pub data Result (A : Type 0) : Type 0 where
  ok : A → Result A
  err : Error → Result A

abbrev pub M : Type 0 → Type 0
M A = World → Result A × World

abbrev pub pure : {A : Type 0} → A → M A
pure a w = (ok a, w)

abbrev pub raise : {A : Type 0} → Error → M A
raise e w = (err e, w)

abbrev pub next : {A B : Type 0} → Result A × World → (A → M B) → Result B × World
next (ok a, w) f = f a w
next (err e, w) f = (err e, w)

infixl 5 ◌>>=◌ ◌>>◌
abbrev pub ◌>>=◌ : {A B : Type 0} → M A → (A → M B) → M B
◌>>=◌ m f w = next (m w) f

abbrev pub ◌>>◌ : {A B : Type 0} → M A → M B → M B
m >> k = m >>= λ _. k

abbrev pub guard : Bool → Error → M (Unit {0})
guard b e w = (if b then ok tt else err e, w)

-- `if err != nil { return … }`
abbrev pub relabel : {A : Type 0} → (Error → Error) → Result A × World → Result A × World
relabel f (ok a, w) = (ok a, w)
relabel f (err e, w) = (err (f e), w)

abbrev pub map_error : {A : Type 0} → (Error → Error) → M A → M A
map_error f m w = relabel f (m w)

-- The answer of a port, at the time of the call; an absent answer is an error.
abbrev pub answer : {A : Type 0} → Error → Option A → Result A
answer e none = err e
answer e (some a) = ok a

abbrev pub ask : {A : Type 0} → Error → (ℕ → Option A) → M A
ask e f w = (answer e (f w.clock), record w { clock = w.clock + 1 })

-- A call that only succeeds or fails.
abbrev pub call : Error → (ℕ → Bool) → M (Unit {0})
call e fails w = (if fails w.clock then err e else ok tt, record w { clock = w.clock + 1 })

-- A call whose error is only logged.
abbrev pub try_call : (ℕ → Bool) → M (Unit {0})
try_call fails w = (ok tt, record w { clock = w.clock + 1 })

pub record Tokens : Type 0 where
  pub access_token : String
  pub refresh_token : String

pub record TokenManager : Type 0 where
  pub new_tokens : ℕ → ℕ → Bool → String → Option Tokens
  pub extract_session_id : String → Option String
  pub revoke_fault : ℕ → String → Bool

pub record SessionStore : Type 0 where
  pub save_fault : ℕ → Bool
  pub get_fault : ℕ → Bool
  pub is_valid : ℕ → String → Bool
  pub delete_fault : ℕ → Bool

-- `now t` is the time of the day at `t`; `email_indexed`: the unique index on the email was created, which
-- the repository only tries at its start. `verify hash plain`; `random_id t` is the identifier that the random source gives at time `t`.
pub record Ports : Type 0 where
  pub db_fault : ℕ → Bool
  pub now : ℕ → ℕ
  pub email_indexed : Bool
  pub verify : Option (String → String → Bool)
  pub tokens : Option TokenManager
  pub sessions : Option SessionStore
  pub random_id : ℕ → Option String
