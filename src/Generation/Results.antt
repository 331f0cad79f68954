-- ===== src/Generation/Results.antt =====
-- The record that a service's task leaves.
use milton_prism.Prelude.{
  if◌then◌else◌, if_false, ℕ, zero, suc, String, true, false, Option, none, some, List, [], ◌∷◌,
  ◌++◌, ◌≡◌, refl, sym, ◌∙◌, subst, ◌⊎◌, inl, inr, Bool-cases, str_eq, eq_iff, ◌==◌, ==_iff,
}
use milton_prism.Migration.Publish.{ServiceSpec}
use milton_prism.Generation.Records.{
  pending, Status, done, failed, generating, status_eq, ServiceRecord, InvokeRequest, FileArtifact,
  Answer, plain_record,
}
use milton_prism.Generation.Store.{BulkOutcome, has_key, find_record, list_records, set_record}
use milton_prism.Generation.Agent.{Trial, try_agent, result_record, status_of}
use milton_prism.Generation.Service.{
  cancelled_reason, Effect, invoked, Environment, try_put, try_files, repeat_effect, persist,
  generate_service, run_goroutine, service_task, is_done, request_of,
}
use milton_prism.Generation.Keys.{merged, has_key_self, IsUnique, find-later}
use milton_prism.Generation.Interleaving.{write_on, latest, latest-append}

-- What an agent answered for a service, its attempts taken together.
abbrev pub final_answer : Environment → ℕ → String → ServiceSpec → Answer
final_answer env i profile spec = (try_agent (env.agent i) (request_of env profile spec)).answer

module _ (m : ℕ) (n : String) where
  latest-calls :
      (k : ℕ) (req : InvokeRequest) (o : Option ServiceRecord)
      → latest m n (repeat_effect k (invoked req)) o ≡ o
  unfolding latest
  latest-calls zero req o = refl
  latest-calls (suc k) req o = latest-calls k req o

  latest-files :
      (b : BulkOutcome) (name : String) (fs : List FileArtifact) (o : Option ServiceRecord)
      → latest m n (try_files b m name fs) o ≡ o
  unfolding latest
  latest-files b name [] o = refl
  latest-files b name (f ∷ fs) o = refl

-- The document is there, with this status.
abbrev pub HasStatus : Status → Option ServiceRecord → Type 0
HasStatus s none = ⊥
HasStatus s (some r) = r.status ≡ s

merged-status :
    (new : ServiceRecord) (o : Option ServiceRecord) → HasStatus new.status (some (merged new o))
unfolding set_record
merged-status new none = refl
merged-status new (some old) = refl

latest-put :
    (m : ℕ) (n : String) (r : ServiceRecord) (o : Option ServiceRecord)
    → r.migration_id ≡ m
    → r.service_name ≡ n
    → HasStatus r.status (latest m n (try_put false r) o)
unfolding latest
latest-put m n r o p q = rw (has_key_self m n r p q, write_on) (merged-status r o)

module _ (env : Environment) (i m : ℕ) (profile : String) (spec : ServiceSpec) where
  persist-status :
      (trial : Trial) (o : Option ServiceRecord)
      → env.record_fault i 1 ≡ false
      → HasStatus (status_of trial.answer) (latest m spec.name (persist env i m spec.name trial) o)
  unfolding persist result_record
  persist-status trial o h =
      let r = result_record m spec.name trial.answer in
      let files = try_files (env.bulk_outcome i) m spec.name trial.answer.result.file_artifacts in
      rw h (
        rw (latest-append m spec.name (try_put false r) files o) (
          rw
            (latest-files m spec.name (env.bulk_outcome i) spec.name
              trial.answer.result.file_artifacts (latest m spec.name (try_put false r) o))
            (latest-put m spec.name r o refl refl)))

  generated-status :
      (o : Option ServiceRecord)
      → env.record_fault i 1 ≡ false
      → HasStatus
          (status_of (final_answer env i profile spec))
          (latest m spec.name (generate_service env i m profile spec) o)
  unfolding generate_service
  generated-status o h =
      let req = request_of env profile spec in
      let trial = try_agent (env.agent i) req in
      let start = try_put (env.record_fault i 0) (plain_record m spec.name generating "") in
      let calls = repeat_effect trial.calls (invoked req) in
      let last = persist env i m spec.name trial in
      let before = latest m spec.name calls (latest m spec.name start o) in
      subst (λ (x : Option ServiceRecord). HasStatus (status_of trial.answer) x)
        (sym (
          latest-append m spec.name start (calls ++ last) o
          ∙ latest-append m spec.name calls last (latest m spec.name start o)))
        (persist-status trial before h)

  task-generates :
      (existing : List ServiceRecord)
      → is_done spec.name existing ≡ false
      → spec.incomplete ≡ false
      → env.refused_at_gate i ≡ false
      → service_task env i m profile existing spec ≡ generate_service env i m profile spec
  unfolding service_task run_goroutine
  task-generates existing a b c =
      let generate = generate_service env i m profile spec in
      let admitted = run_goroutine env i m profile spec in
      let hole =
        try_put (env.record_fault i 0) (plain_record m spec.name failed spec.incomplete_reason) in
      if_false (is_done spec.name existing) [] (if spec.incomplete then hole else admitted) a
      ∙ (if_false spec.incomplete hole admitted b
          ∙ if_false (env.refused_at_gate i)
              (try_put (env.record_fault i 0) (plain_record m spec.name failed cancelled_reason))
              generate c)

  -- A service that is neither done nor incomplete and that passes the semaphore, and whose last record
  -- is written, has the status of what the agent answered.
  pub task-status :
      (existing : List ServiceRecord) (o : Option ServiceRecord)
      → is_done spec.name existing ≡ false
      → spec.incomplete ≡ false
      → env.refused_at_gate i ≡ false
      → env.record_fault i 1 ≡ false
      → HasStatus
          (status_of (final_answer env i profile spec))
          (latest m spec.name (service_task env i m profile existing spec) o)
  task-status existing o a b c d =
      subst
        (λ (t : List Effect).
          HasStatus (status_of (final_answer env i profile spec)) (latest m spec.name t o))
        (sym (task-generates existing a b c)) (generated-status o d)

abbrev DoneAt : ℕ → String → List ServiceRecord → Type 0
DoneAt m n rs = HasStatus done (find_record m n rs)

status_eq-done : (s : Status) → status_eq s done ≡ true → s ≡ done
status_eq-done pending h = cc
status_eq-done generating h = cc
status_eq-done done h = refl
status_eq-done failed h = cc

is_done-cases :
    (n : String) (x : ServiceRecord) (rs : List ServiceRecord)
    → is_done n (x ∷ rs) ≡ true
    → ((x.service_name ≡ n) × (x.status ≡ done)) ⊎ (is_done n rs ≡ true)
unfolding is_done
is_done-cases n x rs h = elim (Bool-cases (status_eq x.status done)) [
  | inr q ↦ inr (rw q at h)
  | inl q ↦ elim (Bool-cases (str_eq x.service_name n)) [
    | inl e ↦ inl ((eq_iff x.service_name n).0 e, status_eq-done x.status q)
    | inr e ↦ inr (rw (q, e) at h)
  ]
]

later-DoneAt :
    (m : ℕ) (n : String) (x : ServiceRecord) (rs : List ServiceRecord) (o : Option ServiceRecord)
    → find_record x.migration_id x.service_name rs ≡ none
    → find_record m n rs ≡ o
    → HasStatus done o
    → DoneAt m n (x ∷ rs)
later-DoneAt m n x rs none u e d = elim d [ ]
later-DoneAt m n x rs (some r) u e d = rw (find-later m n x r rs u e) d

here-DoneAt :
    (m : ℕ) (n : String) (x : ServiceRecord) (rs : List ServiceRecord)
    → has_key m n x ≡ true
    → x.status ≡ done
    → DoneAt m n (x ∷ rs)
unfolding find_record
here-DoneAt m n x rs h d = rw h d

nothing_done : (n : String) → is_done n [] ≡ true → ⊥
unfolding is_done
nothing_done n h = cc

-- With unique keys, a name among the done ones of a migration has a record that is done.
pub is_done-DoneAt :
    (m : ℕ) (n : String) (rs : List ServiceRecord)
    → IsUnique rs
    → is_done n (list_records m rs) ≡ true
    → HasStatus done (find_record m n rs)
unfolding list_records
is_done-DoneAt m n [] u h = absurd (nothing_done n h)
is_done-DoneAt m n (x ∷ rs) u h = elim (Bool-cases (x.migration_id == m)) [
  | inr q ↦
      later-DoneAt m n x rs (find_record m n rs) u.0 refl (is_done-DoneAt m n rs u.1 (rw q at h))
  | inl q ↦ elim (is_done-cases n x (list_records m rs) (rw q at h)) [
    | inl (e, d) ↦ here-DoneAt m n x rs (has_key_self m n x ((==_iff x.migration_id m).0 q) e) d
    | inr later ↦
        later-DoneAt m n x rs (find_record m n rs) u.0 refl (is_done-DoneAt m n rs u.1 later)
  ]
]
