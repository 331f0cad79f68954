-- ===== src/Generation/Done.antt =====
-- A service that is done is left alone by every later job.
use milton_prism.Prelude.{
  if_ind, ℕ, ◌+◌, String, true, Option, none, some, List, [], ◌∷◌, ◌≡◌, refl, sym, ◌∙◌, ap, subst,
  inl, inr, Bool-cases, All, ◌==◌, ==_iff, eq_iff, str_eq, if◌then◌else◌,
}
use milton_prism.Migration.World.{World}
use milton_prism.Migration.Ports.{Ports}
use milton_prism.Migration.Publish.{ServiceSpec, GenerationPackage}
use milton_prism.Generation.Records.{ServiceRecord, status_eq, done}
use milton_prism.Generation.Store.{Store, has_key, find_record, list_records}
use milton_prism.Generation.Service.{
  Environment, Effect, put_record, put_files, invoked, Interleaves, service_task, service_tasks,
  is_done,
}
use milton_prism.Generation.Run.{Job, run, job_tasks, select_services}
use mathlib.Core.List.{append-nil}
use milton_prism.Generation.Keys.{has_key-parts}
use milton_prism.Generation.Interleaving.{find-perform_all, latest-silent}
use milton_prism.Generation.Tasks.{IsOwn, service_task-IsOwn, done-AllSilent}
use milton_prism.Generation.Idempotence.{
  CallsOther, NoCallsFor, All-interleaving, perform_all-calls, settled, run-store,
}

is_done-later :
    (n : String) (x : ServiceRecord) (rs : List ServiceRecord)
    → is_done n rs ≡ true
    → is_done n (x ∷ rs) ≡ true
unfolding is_done
is_done-later n x rs h =
    if_ind (λ b. b ≡ true) (status_eq x.status done)
      (if str_eq x.service_name n then true else is_done n rs) (is_done n rs)
      (if_ind (λ b. b ≡ true) (str_eq x.service_name n) true (is_done n rs) refl h) h

is_done-here :
    (n : String) (x : ServiceRecord) (rs : List ServiceRecord)
    → x.service_name ≡ n
    → status_eq x.status done ≡ true
    → is_done n (x ∷ rs) ≡ true
unfolding is_done
is_done-here n x rs e d = rw (d, (eq_iff x.service_name n).1 e) refl

abbrev IsDone : Option ServiceRecord → Type 0
IsDone none = ⊥
IsDone (some r) = status_eq r.status done ≡ true

-- A record found under a key of the migration that is done puts its name among the done ones.
found-is_done :
    (m : ℕ) (n : String) (rs : List ServiceRecord)
    → IsDone (find_record m n rs)
    → is_done n (list_records m rs) ≡ true
unfolding find_record list_records
found-is_done m n [] d = elim d [ ]
found-is_done m n (x ∷ rs) d = elim (Bool-cases (has_key m n x)) [
  | inl mine ↦
      let e = has_key-parts m n x mine in
      rw ((==_iff x.migration_id m).1 e.0, list_records)
        (is_done-here n x (list_records m rs) e.1 (rw mine at d))
  | inr other ↦
      if_ind (λ l. is_done n l ≡ true) (x.migration_id == m) (x ∷ list_records m rs)
        (list_records m rs)
        (is_done-later n x (list_records m rs) (found-is_done m n rs (rw other at d)))
        (found-is_done m n rs (rw other at d))
]

task-CallsOther :
    (m : ℕ) (n n' : String) (es : List Effect)
    → (n ≡ n' → ⊥)
    → All (IsOwn m n) es
    → All (CallsOther n') es
task-CallsOther m n n' [] h own = tt
task-CallsOther m n n' (put_record _ ∷ es) h own = (tt, task-CallsOther m n n' es h own.1)
task-CallsOther m n n' (put_files _ _ _ _ ∷ es) h own = (tt, task-CallsOther m n n' es h own.1)
task-CallsOther m n n' (invoked req ∷ es) h own =
    ((λ e. h (sym own.0 ∙ e)), task-CallsOther m n n' es h own.1)

module _ (env : Environment) (m : ℕ) (profile : String) (existing : List ServiceRecord) (n : String)
    (finished : is_done n existing ≡ true) where
  no_task-CallsOther :
      (k : ℕ) (spec : ServiceSpec)
      → is_done spec.name existing ≡ true
      → All (CallsOther n) (service_task env k m profile existing spec)
  unfolding service_task
  no_task-CallsOther k spec h = rw (h, service_task) tt

  one_task-CallsOther :
      (k : ℕ) (spec : ServiceSpec) → All (CallsOther n) (service_task env k m profile existing spec)
  unfolding service_task
  one_task-CallsOther k spec = elim (Bool-cases (str_eq spec.name n)) [
    | inr other ↦
        task-CallsOther m spec.name n (service_task env k m profile existing spec)
          (λ q. absurd (cc (other, (eq_iff spec.name n).1 q)))
          (service_task-IsOwn env k m profile existing spec)
    | inl same ↦ no_task-CallsOther k spec (
        subst (λ (x : String). is_done x existing ≡ true) (sym ((eq_iff spec.name n).0 same))
          finished)
  ]

  tasks-CallsOther :
      (k : ℕ) (specs : List ServiceSpec)
      → All (All (CallsOther n)) (service_tasks env k m profile existing specs)
  unfolding service_tasks
  tasks-CallsOther k [] = tt
  tasks-CallsOther k (s ∷ ss) = (one_task-CallsOther k s, tasks-CallsOther (k + 1) ss)

module _ (job : Job) (fair : (ts : List (List Effect)) → Interleaves ts (job.schedule ts))
    (s : Store) (n : String) (r : ServiceRecord)
    (found : find_record job.migration_id n s.records ≡ some r)
    (finished : status_eq r.status done ≡ true) where
  Stays : Store → Type 0
  Stays s' = (find_record job.migration_id n s'.records ≡ some r) × NoCallsFor n s s'

  listed : is_done n (list_records job.migration_id s.records) ≡ true
  listed = found-is_done job.migration_id n s.records (subst (λ o. IsDone o) (sym found) finished)

  settled-Stays : (pkg : GenerationPackage) → Stays (settled job pkg s)
  unfolding Stays job_tasks
  settled-Stays pkg =
      let tasks = job_tasks job pkg s in
      let specs = select_services job.service_filter pkg.services in
      let existing = list_records job.migration_id s.records in
      (
        find-perform_all job.migration_id n (job.schedule tasks) s
            ∙ (latest-silent job.migration_id n (find_record job.migration_id n s.records)
                  (fair tasks)
                  (done-AllSilent job.environment job.migration_id pkg.output_profile existing 0 n
                    specs listed)
                ∙ found),
        perform_all-calls n (job.schedule tasks) s (
            All-interleaving (CallsOther n) (fair tasks) (
              tasks-CallsOther job.environment job.migration_id pkg.output_profile existing n listed
                0 specs)),
      )

  -- However the goroutines are scheduled, a job keeps the record of a service that is done as it is and
  -- does not call the agent for it.
  pub run-keeps_done :
      (p : Ports) (w : World)
      → (find_record job.migration_id n (run p job s w).store.records ≡ some r)
        × NoCallsFor n s (run p job s w).store
  unfolding Stays
  run-keeps_done p w = elim (run-store p job s w) [
    | inl same ↦ rw same (found, ([], sym (append-nil s.invocations), tt))
    | inr (pkg, q, settles) ↦
        let after = settled-Stays pkg in
        (
          ap (λ rs. find_record job.migration_id n rs) settles.records ∙ after.0,
          (after.1.0, settles.invocations ∙ after.1.1, after.1.2),
        )
  ]
