-- ===== src/Generation/Tasks.antt =====
-- The tasks of a job: each writes under the name of its own service, and a service that is done has none.
use milton_prism.Prelude.{
  All-get, some_eq, All-append, ℕ, zero, suc, ◌+◌, String, Bool, true, false, some, List, [], ◌∷◌,
  ◌++◌, ◌≡◌, ◌≢◌, refl, sym, ◌∙◌, subst, inl, inr, Bool-cases, str_eq, eq_iff, All, get_elem?,
  arith,
}
use milton_prism.Migration.Publish.{ServiceSpec}
use milton_prism.Generation.Records.{
  failed, generating, plain_record, ServiceRecord, FileArtifact, InvokeRequest,
}
use milton_prism.Generation.Store.{has_key, BulkOutcome}
use milton_prism.Generation.Agent.{result_record, Trial, try_agent}
use milton_prism.Generation.Service.{
  cancelled_reason, Effect, put_record, put_files, invoked, Environment, try_put, try_files,
  repeat_effect, persist, generate_service, run_goroutine, service_task, service_tasks, is_done,
  request_of,
}
use milton_prism.Generation.Interleaving.{IsSilent, AllSilent, Sole}
use milton_prism.Generation.Keys.{has_key-parts}

-- The effect is on the service's own documents, and calls the agent for no other service.
abbrev pub IsOwn : ℕ → String → Effect → Type 0
IsOwn m n (put_record r) = (r.migration_id ≡ m) × (r.service_name ≡ n)
IsOwn m n (put_files _ m' n' _) = (m' ≡ m) × (n' ≡ n)
IsOwn m n (invoked req) = req.service_name ≡ n

module _ (m : ℕ) (n : String) where
  AllOwn-append :
      (es fs : List Effect) → All (IsOwn m n) es → All (IsOwn m n) fs → All (IsOwn m n) (es ++ fs)
  AllOwn-append es fs = All-append (IsOwn m n) es fs

  try_put-IsOwn :
      (b : Bool) (r : ServiceRecord)
      → r.migration_id ≡ m
      → r.service_name ≡ n
      → All (IsOwn m n) (try_put b r)
  try_put-IsOwn true r p q = tt
  try_put-IsOwn false r p q = ((p, q), tt)

  try_files-IsOwn :
      (o : BulkOutcome) (fs : List FileArtifact) → All (IsOwn m n) (try_files o m n fs)
  try_files-IsOwn o [] = tt
  try_files-IsOwn o (f ∷ fs) = ((refl, refl), tt)

  repeat-IsOwn :
      (k : ℕ) (req : InvokeRequest)
      → req.service_name ≡ n
      → All (IsOwn m n) (repeat_effect k (invoked req))
  repeat-IsOwn zero req h = tt
  repeat-IsOwn (suc k) req h = (h, repeat-IsOwn k req h)

module _ (env : Environment) (i m : ℕ) (profile : String) where
  persist-IsOwn : (n : String) (trial : Trial) → All (IsOwn m n) (persist env i m n trial)
  unfolding persist result_record
  persist-IsOwn n trial =
      All-append (IsOwn m n) (try_put (env.record_fault i 1) (result_record m n trial.answer))
        (try_files (env.bulk_outcome i) m n trial.answer.result.file_artifacts)
        (try_put-IsOwn m n (env.record_fault i 1) (result_record m n trial.answer) refl refl)
        (try_files-IsOwn m n (env.bulk_outcome i) trial.answer.result.file_artifacts)

  generate_service-IsOwn :
      (spec : ServiceSpec) → All (IsOwn m spec.name) (generate_service env i m profile spec)
  unfolding generate_service plain_record request_of
  generate_service-IsOwn spec =
      let req = request_of env profile spec in
      let trial = try_agent (env.agent i) req in
      All-append (IsOwn m spec.name)
        (try_put (env.record_fault i 0) (plain_record m spec.name generating ""))
        (repeat_effect trial.calls (invoked req) ++ persist env i m spec.name trial)
        (try_put-IsOwn m spec.name (env.record_fault i 0) (plain_record m spec.name generating "")
          refl refl)
        (All-append (IsOwn m spec.name) (repeat_effect trial.calls (invoked req))
          (persist env i m spec.name trial) (repeat-IsOwn m spec.name trial.calls req refl)
          (persist-IsOwn spec.name trial))

  pub service_task-IsOwn :
      (existing : List ServiceRecord) (spec : ServiceSpec)
      → All (IsOwn m spec.name) (service_task env i m profile existing spec)
  unfolding service_task run_goroutine plain_record
  service_task-IsOwn existing spec = elim (Bool-cases (is_done spec.name existing)) [
    | inl done ↦ rw (done, service_task) tt
    | inr open_yet ↦ elim (Bool-cases spec.incomplete) [
      | inl hole ↦
          rw (open_yet, service_task, hole)
            (try_put-IsOwn m spec.name (env.record_fault i 0)
              (plain_record m spec.name failed spec.incomplete_reason) refl refl)
      | inr complete ↦ elim (Bool-cases (env.refused_at_gate i)) [
        | inl refused ↦
            rw (open_yet, service_task, complete, refused)
              (try_put-IsOwn m spec.name (env.record_fault i 0)
                (plain_record m spec.name failed cancelled_reason) refl refl)
        | inr admitted ↦
            rw (open_yet, service_task, complete, admitted) (generate_service-IsOwn spec)
      ]
    ]
  ]

not_mine :
    (m m' : ℕ) (n n' : String) (r : ServiceRecord)
    → ((m ≡ m') → (n ≡ n') → ⊥)
    → r.migration_id ≡ m
    → r.service_name ≡ n
    → has_key m' n' r ≡ false
not_mine m m' n n' r h p q = elim (Bool-cases (has_key m' n' r)) [
  | inr other ↦ other
  | inl mine ↦ let e = has_key-parts m' n' r mine in absurd (h (sym p ∙ e.0) (sym q ∙ e.1))
]

-- A task on the documents of a service is silent on those of any other.
pub IsOwn-IsSilent :
    (m m' : ℕ) (n n' : String) (es : List Effect)
    → ((m ≡ m') → (n ≡ n') → ⊥)
    → All (IsOwn m n) es
    → IsSilent m' n' es
IsOwn-IsSilent m m' n n' [] h own = tt
IsOwn-IsSilent m m' n n' (put_record r ∷ es) h own =
    (not_mine m m' n n' r h own.0.0 own.0.1, IsOwn-IsSilent m m' n n' es h own.1)
IsOwn-IsSilent m m' n n' (put_files _ _ _ _ ∷ es) h own = (tt, IsOwn-IsSilent m m' n n' es h own.1)
IsOwn-IsSilent m m' n n' (invoked _ ∷ es) h own = (tt, IsOwn-IsSilent m m' n n' es h own.1)

abbrev pub HasName : String → ServiceSpec → Type 0
HasName n spec = spec.name ≡ n

-- No two services of the list have one name.
abbrev pub AreDistinct : List ServiceSpec → Type 0
AreDistinct [] = Unit
AreDistinct (s ∷ ss) = All (λ t. t.name ≢ s.name) ss × AreDistinct ss

module _ (env : Environment) (m : ℕ) (profile : String) (existing : List ServiceRecord) where
  pub others-AllSilent :
      (k : ℕ) (n : String) (specs : List ServiceSpec)
      → All (λ t. t.name ≢ n) specs
      → AllSilent m n (service_tasks env k m profile existing specs)
  unfolding service_tasks
  others-AllSilent k n [] h = tt
  others-AllSilent k n (s ∷ ss) h = (
    IsOwn-IsSilent m m s.name n (service_task env k m profile existing s) (λ p q. h.0 q)
        (service_task-IsOwn env k m profile existing s),
    others-AllSilent (k + 1) n ss h.1,
  )

  -- With distinct names, a service's task is the only one on its documents.
  pub service_tasks-Sole :
      (k i : ℕ) (specs : List ServiceSpec) (spec : ServiceSpec)
      → AreDistinct specs
      → get_elem? specs i ≡ some spec
      → Sole m spec.name
          (service_task env (k + i) m profile existing spec)
          (service_tasks env k m profile existing specs)
  unfolding service_tasks
  service_tasks-Sole k i [] spec d h = cc
  service_tasks-Sole k zero (s ∷ ss) spec d h =
      subst
        (λ (j : ℕ).
          Sole m spec.name (service_task env j m profile existing spec)
            (service_tasks env k m profile existing (s ∷ ss)))
        (omega arith)
        (some_eq
          (λ (x : ServiceSpec).
            Sole m x.name (service_task env k m profile existing x)
              (service_tasks env k m profile existing (s ∷ ss)))
          s spec (Sole.first (others-AllSilent (k + 1) s.name ss d.0)) h)
  service_tasks-Sole k (suc i) (s ∷ ss) spec d h =
      let differs = All-get (λ (t : ServiceSpec). t.name ≢ s.name) ss i spec d.0 h in
      subst
        (λ (j : ℕ).
          Sole m spec.name (service_task env j m profile existing spec)
            (service_tasks env k m profile existing (s ∷ ss)))
        (omega arith)
        (Sole.another
          (IsOwn-IsSilent m m s.name spec.name (service_task env k m profile existing s)
            (λ p q. differs (sym q)) (service_task-IsOwn env k m profile existing s))
          (service_tasks-Sole (k + 1) i ss spec d.1 h))

  idle_task :
      (k : ℕ) (n : String) (s : ServiceSpec)
      → is_done s.name existing ≡ true
      → IsSilent m n (service_task env k m profile existing s)
  unfolding service_task
  idle_task k n s h = rw (h, service_task) tt

  -- A service that is done has no task, and no other task is on its documents.
  pub done-AllSilent :
      (k : ℕ) (n : String) (specs : List ServiceSpec)
      → is_done n existing ≡ true
      → AllSilent m n (service_tasks env k m profile existing specs)
  unfolding service_tasks
  done-AllSilent k n [] h = tt
  done-AllSilent k n (s ∷ ss) h = (
    elim (Bool-cases (str_eq s.name n)) [
      | inl same ↦
          idle_task k n s
            (subst (λ (x : String). is_done x existing ≡ true) (sym ((eq_iff s.name n).0 same)) h)
      | inr other ↦
          IsOwn-IsSilent m m s.name n (service_task env k m profile existing s)
            (λ p q. absurd (cc (other, (eq_iff s.name n).1 q)))
            (service_task-IsOwn env k m profile existing s)
    ],
    done-AllSilent (k + 1) n ss h,
  )
