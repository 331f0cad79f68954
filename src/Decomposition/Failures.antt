-- ===== src/Decomposition/Failures.antt =====
-- What a job of the decomposition that fails leaves alone, and when it fails the migration.
use milton_prism.Decomposition.Ownership.{analyze_data_ownership}
use milton_prism.Prelude.{
  some_eq, if_ind, ℕ, String, Bool, true, false, not, ◌&&◌, Option, none, some, List, [], ◌∷◌, ◌≡◌,
  refl, sym, ◌∙◌, subst, inl, inr, Bool-cases, Option-cases, ◌==◌, ==_iff, if◌then◌else◌,
}
use milton_prism.Migration.Domain.{Error, RestructurePlan, designing, failed, state_number}
use milton_prism.Migration.World.{World, Doc, Result, ok, err, map_error, ◌>>=◌, guard}
use milton_prism.Migration.Ports.{Ports}
use milton_prism.Migration.Store.{
  put_doc, update_one, command, run_update, update_matching, live, live_in,
}
use milton_prism.Migration.Healthy.{IsHealthy}
use milton_prism.Migration.Workers.{write_plan, mark_design_failed, update_if_any}
use milton_prism.Worker.Prefixes.{Assigned}
use milton_prism.Decomposition.Domain.{
  Edge, Classification, ClusteringResult, ServiceCandidate, DerivedContract, domain_subgraph,
  apply_coherence_guardrail,
}
use milton_prism.Decomposition.Characterize.{characterize}
use milton_prism.Decomposition.Plan.{assemble_plan}
use milton_prism.Decomposition.Run.{
  Pipeline, Job, State, Outcome, Deriver, RunError, plan_write, plan_write_no_boundaries,
  derive_all, plan_of, augmented_of, no_ownership, run_derived, run_contracts, run_proposed,
  run_no_boundaries, run_characterized, run_guarded, run_clustered, run_wired, run_detected,
  run_loaded, run, store_artifacts, after_write, mark_failed, decompose_failure_reason, Task,
  run_failed, handle_error, process_task,
}

-- An error leaves the artifacts and every migration as they were.
abbrev pub Spares : State → Outcome → Type 0
Spares s (none, u) = Unit
Spares s (some e, u) = (u.artifacts ≡ s.artifacts) × ((j : ℕ) → u.world.docs j ≡ s.world.docs j)

abbrev SparesDocs : World → Result (Unit {0}) × World → Type 0
SparesDocs w (ok _, u) = Unit
SparesDocs w (err e, u) = (j : ℕ) → u.docs j ≡ w.docs j

write_plan-SparesDocs :
    (p : Ports) (id : ℕ) (plan : RestructurePlan) (w : World)
    → SparesDocs w (write_plan p id plan w)
unfolding write_plan
write_plan-SparesDocs p id plan w = elim (Option-cases (p.db_fault w.clock)) [
  | inr (n, h) ↦ rw (h, ◌>>=◌, map_error, update_one, command, guard) (λ j. refl)
  | inl h ↦ elim (Option-cases (w.docs id)) [
    | inl missing ↦
        rw (h, missing, ◌>>=◌, map_error, update_one, command, run_update, update_matching, guard)
          (λ j. refl)
    | inr (d, e) ↦ elim (Bool-cases (live d)) [
      | inl alive ↦
          rw
            (h, e, alive, ◌>>=◌, map_error, update_one, command, run_update, update_matching, guard)
            tt
      | inr dead ↦
          rw (h, e, dead, ◌>>=◌, map_error, update_one, command, run_update, update_matching, guard)
            (λ j. refl)
    ]
  ]
]

after_write-Spares :
    (label : Error → RunError) (further : State → State) (s : State) (t : Assigned)
    (r : Result (Unit {0}) × World)
    → SparesDocs s.world r
    → Spares s (after_write label further (record s { assigned = t }) r)
after_write-Spares label further s t (ok _, w) h = tt
after_write-Spares label further s t (err e, w) h = (refl, h)

module _ (p : Pipeline) (job : Job) (s : State) (t : Assigned) where
  abbrev after_claims : State
  after_claims = record s { assigned = t }

  contracts-Spares :
      (cr : ClusteringResult) (ks : List ServiceCandidate) (contracts : List DerivedContract)
      (o : Option Ports)
      → Spares s (run_contracts p job cr ks after_claims contracts o)
  unfolding run_contracts run_derived
  contracts-Spares cr ks contracts none = tt
  contracts-Spares cr ks contracts (some ports) =
      after_write-Spares plan_write
        (store_artifacts p job.migration_id (plan_of p.texts.format.decimal cr ks contracts)
          contracts (analyze_data_ownership ks contracts) (augmented_of ks contracts))
        s t
        (write_plan ports job.migration_id (plan_of p.texts.format.decimal cr ks contracts) s.world)
        (write_plan-SparesDocs ports job.migration_id
          (plan_of p.texts.format.decimal cr ks contracts) s.world)

  proposed-Spares :
      (cr : ClusteringResult) (ks : List ServiceCandidate) (o : Option Deriver)
      → Spares s (run_proposed p job cr ks after_claims o)
  unfolding run_proposed
  proposed-Spares cr ks none = tt
  proposed-Spares cr ks (some d) =
      if_ind (Spares s) (not d.acquires) _ _ (refl, λ j. refl)
        (contracts-Spares cr ks (derive_all (d.derive cr.clusters) cr.clusters) p.plan_writer)

  no_boundaries-Spares :
      (cr : ClusteringResult) (o : Option Ports)
      → Spares s (run_no_boundaries p job cr after_claims o)
  unfolding run_no_boundaries
  no_boundaries-Spares cr none = tt
  no_boundaries-Spares cr (some ports) =
      after_write-Spares plan_write_no_boundaries (λ u. u) s t
        (write_plan ports job.migration_id
          (assemble_plan p.texts.format.decimal [] no_ownership (some cr)) s.world)
        (write_plan-SparesDocs ports job.migration_id
          (assemble_plan p.texts.format.decimal [] no_ownership (some cr)) s.world)

  characterized-Spares :
      (cr : ClusteringResult) (o : Option (List ServiceCandidate))
      → Spares s (run_characterized p job cr s (o, t))
  unfolding run_characterized
  characterized-Spares cr none = (refl, λ j. refl)
  characterized-Spares cr (some []) = no_boundaries-Spares cr p.plan_writer
  characterized-Spares cr (some (k ∷ ks)) = proposed-Spares cr (k ∷ ks) p.deriver

module _ (p : Pipeline) (job : Job) (s : State) where
  characterized_pair-Spares :
      (cr : ClusteringResult) (r : Option (List ServiceCandidate) × Assigned)
      → Spares s (run_characterized p job cr s r)
  characterized_pair-Spares cr (o, t) = characterized-Spares p job s t cr o

  guarded-Spares :
      (edges : List Edge) (cr : ClusteringResult) → Spares s (run_guarded p job edges s cr)
  unfolding run_guarded
  guarded-Spares edges cr =
      if_ind (Spares s) (not p.has_allocator) _ _ tt
        (characterized_pair-Spares cr (characterize p.texts edges cr.clusters s.assigned))

  clustered-Spares :
      (edges : List Edge) (cls : Classification) (o : Option ClusteringResult)
      → Spares s (run_clustered p job edges cls s o)
  unfolding run_clustered
  clustered-Spares edges cls none = (refl, λ j. refl)
  clustered-Spares edges cls (some cr) =
      guarded-Spares edges (apply_coherence_guardrail cls cr edges).1

  wired-Spares :
      (graph : List Edge) (cls : Classification)
      (o : Option (List Edge → Classification → Option ClusteringResult))
      → Spares s (run_wired p job graph cls s o)
  unfolding run_wired
  wired-Spares graph cls none = tt
  wired-Spares graph cls (some cluster) =
      let edges = domain_subgraph graph cls.domain in clustered-Spares edges cls (cluster edges cls)

  detected-Spares :
      (graph : List Edge) (o : Option Classification) → Spares s (run_detected p job graph s o)
  unfolding run_detected
  detected-Spares graph none = (refl, λ j. refl)
  detected-Spares graph (some cls) = wired-Spares graph cls p.clusterer

  loaded-Spares : (o : Option (List Edge)) → Spares s (run_loaded p job s o)
  unfolding run_loaded
  loaded-Spares none = (refl, λ j. refl)
  loaded-Spares (some graph) = detected-Spares graph (p.detect graph)

  run-Spares : Spares s (run p job s)
  unfolding run
  run-Spares = loaded-Spares (p.load job.summary_id)

spared :
    (s : State) (o : Outcome) (e : RunError)
    → Spares s o
    → o.0 ≡ some e
    → (o.1.artifacts ≡ s.artifacts) × ((j : ℕ) → o.1.world.docs j ≡ s.world.docs j)
spared s (none, u) e h q = cc
spared s (some x, u) e h q = h

-- A job that returns an error has changed no migration and no design artifact.
pub run-error_keeps :
    (p : Pipeline) (job : Job) (s : State) (e : RunError)
    → (run p job s).0 ≡ some e
    → ((run p job s).1.artifacts ≡ s.artifacts)
      × ((j : ℕ) → (run p job s).1.world.docs j ≡ s.world.docs j)
run-error_keeps p job s e q = spared s (run p job s) e (run-Spares p job s) q

-- What the handler makes of a document.
abbrev pub after_failure : Task → Job → RunError → Doc → Doc
after_failure task job e d =
    if (not (job.migration_id == 0) && task.is_last_attempt)
      && (state_number d.state == state_number designing)
    then record d { state = failed; failure_reason = decompose_failure_reason (task.error_text e) }
    else d

updated :
    (ports : Ports) (filter : Doc → Bool) (set : Doc → Doc) (id : ℕ) (w : World) (d : Doc)
    (b : Bool)
    → IsHealthy ports
    → w.docs id ≡ some d
    → filter d ≡ b
    → (update_if_any ports filter set id w).1.docs id ≡ some (if b then set d else d)
unfolding update_if_any put_doc
updated ports filter set id w d true h e passes =
    rw
      (
        h w.clock,
        e,
        passes,
        ◌>>=◌,
        update_one,
        command,
        run_update,
        update_matching,
        (==_iff id id).1 refl,
      )
      refl
updated ports filter set id w d false h e passes =
    rw (h w.clock, e, passes, ◌>>=◌, update_one, command, run_update, update_matching) e

and_not_deleted : (b deleted : Bool) → deleted ≡ false → (b && not deleted) ≡ b
and_not_deleted true deleted h = rw h refl
and_not_deleted false deleted h = refl

marked :
    (ports : Ports) (id : ℕ) (reason : String) (w : World) (d : Doc)
    → IsHealthy ports
    → w.docs id ≡ some d
    → d.deleted ≡ false
    → (mark_design_failed ports id reason w).1.docs id
      ≡ some (
          if state_number d.state == state_number designing
          then record d { state = failed; failure_reason = reason }
          else d)
unfolding mark_design_failed
marked ports id reason w d h e l =
    updated ports (live_in designing) (λ x. record x { state = failed; failure_reason = reason }) id
      w d (state_number d.state == state_number designing) h e
      (and_not_deleted (state_number d.state == state_number designing) d.deleted l)

handled :
    (p : Pipeline) (task : Task) (job : Job) (ports : Ports) (d : Doc) (e : RunError) (o : Outcome)
    → p.plan_writer ≡ some ports
    → IsHealthy ports
    → o.0 ≡ some e
    → o.1.world.docs job.migration_id ≡ some d
    → d.deleted ≡ false
    → (handle_error p task job o).1.world.docs job.migration_id ≡ some (after_failure task job e d)
unfolding handle_error mark_failed
handled p task job ports d e (none, u) wired h q k l = cc
handled p task job ports d e (some x, u) wired h q k l =
    some_eq
      (λ (y : RunError).
        (handle_error p task job (some x, u)).1.world.docs job.migration_id
        ≡ some (after_failure task job y d))
      x e
      (subst
        (λ (o : Option Ports).
          (if not (job.migration_id == 0) && task.is_last_attempt
              then mark_failed job.migration_id (decompose_failure_reason (task.error_text x)) u o
              else u).world.docs
            job.migration_id
          ≡ some (after_failure task job x d))
        (sym wired) (either (not (job.migration_id == 0) && task.is_last_attempt)))
      q
  where
    either :
        (b : Bool)
        → (if b
              then mark_failed job.migration_id
                  (decompose_failure_reason (task.error_text x))
                  u
                  (some ports)
              else u).world.docs
            job.migration_id
          ≡ some (
              if b && (state_number d.state == state_number designing)
              then record d {
                state = failed;
                failure_reason = decompose_failure_reason (task.error_text x);
              }
              else d)
    either true =
        marked ports job.migration_id (decompose_failure_reason (task.error_text x)) u.world d h k l
    either false = k

handle_error-error :
    (p : Pipeline) (task : Task) (job : Job) (e : RunError) (o : Outcome)
    → o.0 ≡ some e
    → (handle_error p task job o).0 ≡ some (run_failed e)
unfolding handle_error
handle_error-error p task job e (none, u) q = cc
handle_error-error p task job e (some x, u) q =
    some_eq (λ y. some (run_failed x) ≡ some (run_failed y)) x e refl q

-- While the database answers, a task whose job fails returns the error of the job; a live migration of it
-- that is in DESIGNING is then in FAILED with the reason if this was the last attempt and the identifier is
-- not 0, and otherwise it is exactly as it was before the task.
pub process_task-settles :
    (p : Pipeline) (last : Bool) (text : RunError → String) (job : Job) (ports : Ports) (s : State)
    (d : Doc) (e : RunError)
    → p.plan_writer ≡ some ports
    → IsHealthy ports
    → s.world.docs job.migration_id ≡ some d
    → d.deleted ≡ false
    → (run p job s).0 ≡ some e
    → let task : Task = record { payload = some job; is_last_attempt = last; error_text = text } in
      ((process_task p task s).0 ≡ some (run_failed e))
      × ((process_task p task s).1.world.docs job.migration_id ≡ some (after_failure task job e d))
unfolding process_task
process_task-settles p last text job ports s d e wired h k l q =
    let task : Task = record { payload = some job; is_last_attempt = last; error_text = text } in
    (
      handle_error-error p task job e (run p job s) q,
      handled p task job ports d e (run p job s) wired h q
          ((run-error_keeps p job s e q).1 job.migration_id ∙ k) l,
    )
