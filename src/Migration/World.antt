-- ===== src/Migration/World.antt =====
-- What a request of the migration service runs in: the `migrations` collection, the sequence counter
-- and the calls made so far; and the ports it is wired to.
use milton_prism.Prelude.{
  ℕ, ◌+◌, String, Bool, Option, none, some, List, [], ◌∷◌, ◌++◌, if◌then◌else◌,
}
use milton_prism.Migration.Domain.{State, Error, TargetConfig, RestructurePlan, Assessment, Roadmap}

-- A document of the collection (`mongoMigrationDoc`). Sub-documents are stored as message bytes; the
-- codec is taken as exact, so they stand here decoded. `deleted` is `delete_time != nil`.
pub record Doc : Type 0 where
  pub repository_id : ℕ
  pub repository_url : String
  pub owner_user_id : ℕ
  pub source_branch : String
  pub state : State
  pub target : Option TargetConfig
  pub analysis_summary_id : ℕ
  pub source_analysis_summary_id : ℕ
  pub plan : Option RestructurePlan
  pub assessment : Option Assessment
  pub override : Bool
  pub analysis_reused : Bool
  pub roadmap : Option Roadmap
  pub enrichment : Option String
  pub blueprint : Option String
  pub failure_reason : String
  pub deleted : Bool

-- A call that leaves the service and is not a database command.
pub data Call : Type 0 where
  run_analysis : (repository_id migration_id owner_user_id : ℕ) → (source_branch : String) → Call
  enqueue_generation : (migration_id : ℕ) → (service_filter : List String) → Call
  enqueue_decompose : (migration_id summary_id : ℕ) → (remote_url default_branch : String) → Call
  push_files : (target_url write_token commit_message : String) → (paths : List String) → Call

-- `docs` is the collection by identifier, which carries a unique index. `clock` counts the external
-- calls, so that an answer may change from one call to the next.
pub record World : Type 0 where
  pub docs : ℕ → Option Doc
  pub counter : ℕ
  pub clock : ℕ
  pub calls : List Call

pub data Result {ℓ} (A : Type ℓ) : Type ℓ where
  ok : A → Result A
  err : Error → Result A

abbrev pub M : Type 0 → Type 0
M A = World → Result A × World

abbrev pub pure : {A : Type 0} → A → M A
pure a w = (ok a, w)

abbrev pub raise : {A : Type 0} → Error → M A
raise e w = (err e, w)

-- The rest of an action, run on the outcome of its first part.
abbrev pub next : {A B : Type 0} → Result A × World → (A → M B) → Result B × World
next (ok a, w) f = f a w
next (err e, w) f = (err e, w)

infixl 5 ◌>>=◌ ◌>>◌
abbrev pub ◌>>=◌ : {A B : Type 0} → M A → (A → M B) → M B
◌>>=◌ m f w = next (m w) f

abbrev pub ◌>>◌ : {A B : Type 0} → M A → M B → M B
m >> k = m >>= λ _. k

-- `if err := …; err != nil { return err }` on a check without a call.
abbrev pub guard : Bool → Error → M (Unit {0})
guard b e w = (if b then ok tt else err e, w)

abbrev pub branch : {A : Type 0} → Bool → M A → M A → M A
branch b m n w = if b then m w else n w

-- `if s.port != nil { … }`
abbrev pub if_wired : {A B : Type 0} → Option A → (A → M B) → M B → M B
if_wired port use_port otherwise w = elim port [ none ↦ otherwise w | some a ↦ use_port a w ]

-- `if err != nil { return fmt.Errorf(…) }`
abbrev pub relabel : {A : Type 0} → (Error → Error) → Result A × World → Result A × World
relabel f (ok a, w) = (ok a, w)
relabel f (err e, w) = (err (f e), w)

abbrev pub map_error : {A : Type 0} → (Error → Error) → M A → M A
map_error f m w = relabel f (m w)

-- The outcome as a value: the caller goes on whether the call failed or not.
abbrev pub attempt : {A : Type 0} → M A → M (Result A)
attempt m w = (ok (m w).0, (m w).1)

-- A call through a port: the answer may depend on when the call is made.
abbrev pub ask : {A : Type 0} → (ℕ → A) → M A
ask f w = (ok (f w.clock), record w { clock = w.clock + 1 })

-- An answer of the form (value, error).
abbrev pub from_result : {A : Type 0} → Result A → M A
from_result r w = (r, w)

-- An answer that is only an error or nil.
abbrev pub from_error : Option Error → M (Unit {0})
from_error o w = (elim o [ none ↦ ok tt | some e ↦ err e ], w)

abbrev pub record_call : Call → M (Unit {0})
record_call c w = (ok tt, record w { calls = w.calls ++ (c ∷ []) })
