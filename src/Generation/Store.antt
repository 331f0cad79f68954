-- ===== src/Generation/Store.antt =====
-- core/worker/generation/infrastructure/adapters/mongo_generation_store.go: the records by migration
-- and service, the files by migration, service and path. Both keys carry a unique index, so that an
-- upsert changes the document of its key or appends one.
use milton_prism.Prelude.{
  ℕ, String, Bool, false, ◌&&◌, List, [], ◌∷◌, ◌==◌, if◌then◌else◌, str_eq, is_empty, Option, none,
  some,
}
use milton_prism.Generation.Records.{FileArtifact, ServiceRecord, InvokeRequest}

pub record StoredFile : Type 0 where
  pub migration_id : ℕ
  pub service_name : String
  pub file : FileArtifact

-- `invocations` are the calls of the agent so far, in their order.
pub record Store : Type 0 where
  pub records : List ServiceRecord
  pub files : List StoredFile
  pub invocations : List InvokeRequest

abbrev pub has_key : ℕ → String → ServiceRecord → Bool
has_key migration_id name r = (r.migration_id == migration_id) && str_eq r.service_name name

-- A field marked `omitempty` is not part of the `$set` where it is empty: the stored text Stays.
abbrev pub or_kept : String → String → String
or_kept new old = if is_empty new then old else new

unfoldable pub set_record : ServiceRecord → ServiceRecord → ServiceRecord
set_record new old = record new {
  failure_reason = or_kept new.failure_reason old.failure_reason;
  agent_raw_result = or_kept new.agent_raw_result old.agent_raw_result;
}

unfoldable pub upsert_record : ServiceRecord → List ServiceRecord → List ServiceRecord
unfolding set_record
upsert_record new [] = new ∷ []
upsert_record new (r ∷ rs) =
    if has_key new.migration_id new.service_name r
    then set_record new r ∷ rs
    else r ∷ upsert_record new rs

unfoldable pub list_records : ℕ → List ServiceRecord → List ServiceRecord
list_records migration_id [] = []
list_records migration_id (r ∷ rs) =
    let rest = list_records migration_id rs in
    if r.migration_id == migration_id then r ∷ rest else rest

-- The document of a key.
unfoldable pub find_record : ℕ → String → List ServiceRecord → Option ServiceRecord
find_record migration_id name [] = none
find_record migration_id name (r ∷ rs) =
    let later = find_record migration_id name rs in
    if has_key migration_id name r then some r else later

abbrev pub is_file : StoredFile → StoredFile → Bool
is_file f g =
    (g.migration_id == f.migration_id)
    && (str_eq g.service_name f.service_name && str_eq g.file.path f.file.path)

unfoldable pub upsert_file : StoredFile → List StoredFile → List StoredFile
upsert_file f [] = f ∷ []
upsert_file f (g ∷ gs) = if is_file f g then f ∷ gs else g ∷ upsert_file f gs

-- What the server did with the bulk write of a list of files: it wrote those that it accepts, with or
-- without an error of the write concern, or it refused the command, and the files are written again
-- one by one.
pub data BulkOutcome : Type 0 where
  bulk : (accepted : FileArtifact → Bool) → (write_concern_error : Bool) → BulkOutcome
  refused : (accepted : FileArtifact → Bool) → BulkOutcome

abbrev pub accepted_by : BulkOutcome → FileArtifact → Bool
accepted_by (bulk accepted _) a = accepted a
accepted_by (refused accepted) a = accepted a

unfoldable pub write_accepted :
    (FileArtifact → Bool) → ℕ → String → List FileArtifact → List StoredFile → List StoredFile
unfolding upsert_file
write_accepted accepted migration_id name [] gs = gs
write_accepted accepted migration_id name (a ∷ rest) gs =
    write_accepted accepted migration_id name rest (
      if accepted a
      then upsert_file (record { migration_id = migration_id; service_name = name; file = a }) gs
      else gs)

-- The files and whether an error is returned.
unfoldable pub upsert_artifacts :
    BulkOutcome → ℕ → String → List FileArtifact → List StoredFile → Bool × List StoredFile
unfolding write_accepted
upsert_artifacts outcome migration_id name [] gs = (false, gs)
upsert_artifacts (bulk accepted concern) migration_id name (a ∷ rest) gs =
    (concern, write_accepted accepted migration_id name (a ∷ rest) gs)
upsert_artifacts (refused accepted) migration_id name (a ∷ rest) gs =
    (false, write_accepted accepted migration_id name (a ∷ rest) gs)

-- ListArtifacts, before it sorts by path.
unfoldable pub list_files : ℕ → String → List StoredFile → List FileArtifact
list_files migration_id name [] = []
list_files migration_id name (g ∷ gs) =
    let rest = list_files migration_id name gs in
    if (g.migration_id == migration_id) && str_eq g.service_name name then g.file ∷ rest else rest
