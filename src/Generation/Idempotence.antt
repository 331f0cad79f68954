-- ===== src/Generation/Idempotence.antt =====
-- What a job leaves alone: the services that are done, and the other migrations.
use milton_prism.Migration.Workers.{mark_ready, mark_generation_failed}
use milton_prism.Migration.Domain.{Error}
use milton_prism.Prelude.{
  if_false, subst, false, if_ind, All-append, ℕ, String, some, List, [], ◌∷◌, ◌++◌, ◌≡◌, ◌≢◌, refl,
  sym, ◌∙◌, ap, ◌⊎◌, inl, inr, Bool-cases, Option-cases, All,
}
use milton_prism.Migration.World.{err, ok, Result, World}
use milton_prism.Migration.Ports.{Ports}
use milton_prism.Migration.Publish.{GenerationPackage}
use milton_prism.Generation.Records.{ServiceRecord, InvokeRequest}
use milton_prism.Generation.Store.{Store, list_records}
use milton_prism.Generation.Package.{read_package}
use milton_prism.Generation.Service.{
  Effect, put_record, put_files, invoked, perform, perform_all, Picks, Interleaves,
}
use mathlib.Core.List.{append-nil, append_assoc}
use milton_prism.Generation.Run.{
  listing_existing, listing_final, marking_ready, RunError, marking_failed, Job, Outcome, run,
  run_package, conclude, advance, labelled, job_tasks, any_failed,
}
use milton_prism.Generation.Aggregator.{
  scan_existing_error_var_names, generated_names, Toolbox, assemble_error_aggregator,
  aggregator_effects,
}

-- What every goroutine's effects satisfy, an interleaving of them does.
picked {ℓ} :
    (P : Effect → Type ℓ) {e : Effect} {ts ts' : List (List Effect)}
    → Picks e ts ts'
    → All (All P) ts
    → P e × All (All P) ts'
picked P Picks.here h = (h.0.0, (h.0.1, h.1))
picked P (Picks.there p) h = let rest = picked P p h.1 in (rest.0, (h.0, rest.1))

pub All-interleaving {ℓ} :
    (P : Effect → Type ℓ) {ts : List (List Effect)} {es : List Effect}
    → Interleaves ts es
    → All (All P) ts
    → All P es
All-interleaving P (Interleaves.finished d) h = tt
All-interleaving P (Interleaves.advances p i) h =
    let rest = picked P p h in (rest.0, All-interleaving P i rest.1)

-- The effect calls the agent for no service of this name.
abbrev pub CallsOther : String → Effect → Type 0
CallsOther n (put_record _) = Unit
CallsOther n (put_files _ _ _ _) = Unit
CallsOther n (invoked req) = req.service_name ≢ n

-- The calls made between two stores are for other services.
abbrev pub NoCallsFor : String → Store → Store → Type 0
NoCallsFor n s s' =
    (reqs : List InvokeRequest) × (s'.invocations ≡ s.invocations ++ reqs)
    × All (λ (q : InvokeRequest). q.service_name ≢ n) reqs

perform-calls :
    (n : String) (e : Effect) (s : Store) → CallsOther n e → NoCallsFor n s (perform e s)
unfolding perform
perform-calls n (put_record _) s h = ([], sym (append-nil s.invocations), tt)
perform-calls n (put_files _ _ _ _) s h = ([], sym (append-nil s.invocations), tt)
perform-calls n (invoked req) s h = (req ∷ [], refl, (h, tt))

chain_calls : (n : String) (a b c : Store) → NoCallsFor n a b → NoCallsFor n b c → NoCallsFor n a c
chain_calls n a b c (xs, p, hx) (ys, q, hy) = (
  xs ++ ys,
  q ∙ (ap (λ l. l ++ ys) p ∙ append_assoc a.invocations xs ys),
  All-append (λ (r : InvokeRequest). r.service_name ≢ n) xs ys hx hy,
)

pub perform_all-calls :
    (n : String) (es : List Effect) (s : Store)
    → All (CallsOther n) es
    → NoCallsFor n s (perform_all es s)
unfolding perform_all
perform_all-calls n [] s h = ([], sym (append-nil s.invocations), tt)
perform_all-calls n (e ∷ es) s h =
    chain_calls n s (perform e s) (perform_all es (perform e s)) (perform-calls n e s h.0)
      (perform_all-calls n es (perform e s) h.1)

-- The assembled error file changes no record and calls no agent.
pub aggregator-records :
    (box : Toolbox) (m : ℕ) (names : List String) (s : Store)
    → ((perform_all (aggregator_effects box m names) s).records ≡ s.records)
      × ((perform_all (aggregator_effects box m names) s).invocations ≡ s.invocations)
unfolding perform_all perform
aggregator-records box m [] s = (refl, refl)
aggregator-records box m (n ∷ ns) s = (refl, refl)

labelled-store :
    (label : Error → RunError) (s : Store) (x : Result (Unit {0}) × World)
    → (labelled label s x).store ≡ s
labelled-store label s (ok _, w) = refl
labelled-store label s (err _, w) = refl

advance-store :
    (p : Ports) (job : Job) (final : List ServiceRecord) (s : Store) (w : World)
    → (advance p job final s w).store ≡ s
unfolding advance
advance-store p job final s w = elim (Bool-cases (any_failed final)) [
  | inl q ↦
      rw (q, advance)
        (labelled-store marking_failed s (mark_generation_failed p job.migration_id w))
  | inr q ↦ rw (q, advance) (labelled-store marking_ready s (mark_ready p job.migration_id w))
]

-- The store once the goroutines are done.
abbrev pub settled : Job → GenerationPackage → Store → Store
settled job pkg s = perform_all (job.schedule (job_tasks job pkg s)) s

-- A job leaves the store as it was, or as its goroutines left it but for the assembled file.
pub record Settles (job : Job) (pkg : GenerationPackage) (s s' : Store) : Type 0 where
  pub records : s'.records ≡ (settled job pkg s).records
  pub invocations : s'.invocations ≡ (settled job pkg s).invocations

conclude-Settles :
    (p : Ports) (job : Job) (pkg : GenerationPackage) (s t : Store) (w : World)
    → t ≡ settled job pkg s
    → Settles job pkg s (conclude p job pkg t w).store
unfolding conclude assemble_error_aggregator
conclude-Settles p job pkg s t w e =
    let final = list_records job.migration_id t.records in
    let names =
      generated_names job.toolbox t job.migration_id final pkg.services
        (scan_existing_error_var_names job.toolbox) in
    let effects = aggregator_effects job.toolbox job.migration_id names in
    let same = aggregator-records job.toolbox job.migration_id names t in
    if_ind (λ (o : Outcome). Settles job pkg s o.store) job.final_fault
      (record { error = some listing_final; store = t; world = w })
      (advance p job final (perform_all effects t) w)
      (record {
        records = ap (λ (x : Store). x.records) e;
        invocations = ap (λ (x : Store). x.invocations) e;
      })
      (rw (advance-store p job final (perform_all effects t) w) (record {
        records = same.0 ∙ ap (λ (x : Store). x.records) e;
        invocations = same.1 ∙ ap (λ (x : Store). x.invocations) e;
      }))

pub run-store :
    (p : Ports) (job : Job) (s : Store) (w : World)
    → ((run p job s w).store ≡ s)
      ⊎ ((pkg : GenerationPackage) × (read_package job.source job.migration_id w ≡ some pkg)
          × Settles job pkg s (run p job s w).store)
unfolding run run_package
run-store p job s w = elim (Option-cases (read_package job.source job.migration_id w)) [
  | inl q ↦ rw (q, run) (inl refl)
  | inr (pkg, q) ↦
      rw (q, run)
        (if_ind
          (λ (o : Outcome).
            (o.store ≡ s)
            ⊎ ((x : GenerationPackage) × (some pkg ≡ some x) × Settles job x s o.store))
          job.existing_fault (record { error = some listing_existing; store = s; world = w })
          (conclude p job pkg (settled job pkg s) w) (inl refl)
          (inr (pkg, refl, conclude-Settles p job pkg s (settled job pkg s) w refl)))
]

-- With the package and the records read, the store is as the goroutines left it.
pub run-Settles :
    (p : Ports) (job : Job) (s : Store) (w : World) (pkg : GenerationPackage)
    → read_package job.source job.migration_id w ≡ some pkg
    → job.existing_fault ≡ false
    → Settles job pkg s (run p job s w).store
unfolding run run_package
run-Settles p job s w pkg q f =
    rw (q, run)
      (subst (λ (o : Outcome). Settles job pkg s o.store)
        (sym (
          if_false job.existing_fault
            (record { error = some listing_existing; store = s; world = w })
            (conclude p job pkg (settled job pkg s) w) f))
        (conclude-Settles p job pkg s (settled job pkg s) w refl))
