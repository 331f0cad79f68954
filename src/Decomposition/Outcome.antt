-- ===== src/Decomposition/Outcome.antt =====
-- How a job of the decomposition ends: the plan that it leaves, and what an error leaves alone.
use milton_prism.Prelude.{
  is_empty, if_ind, ℕ, String, Bool, true, false, Option, none, some, List, [], ◌∷◌, ◌≡◌, ◌≢◌, refl,
  ==_iff, arith,
}
use milton_prism.Migration.Domain.{Error, RestructurePlan, awaiting_approval}
use milton_prism.Migration.World.{World, Doc, ok, map_error, ◌>>=◌, guard}
use milton_prism.Migration.Ports.{Ports}
use milton_prism.Migration.Store.{put_doc, update_one, command, run_update, update_matching}
use milton_prism.Migration.Healthy.{IsHealthy}
use milton_prism.Migration.Calls.{tick}
use milton_prism.Migration.Workers.{write_plan}
use milton_prism.Worker.Prefixes.{Assigned}
use milton_prism.Decomposition.Domain.{
  apply_coherence_guardrail, domain_subgraph, Edge, Classification, Cluster, ClusteringResult,
  ServiceCandidate, DerivedContract,
}
use milton_prism.Decomposition.Characterize.{characterize, Texts}
use milton_prism.Decomposition.Ownership.{
  add_dep, add_deps, augment_data_deps, analyze_data_ownership,
}
use milton_prism.Decomposition.Plan.{assemble_plan}
use milton_prism.Decomposition.Run.{
  run_clustered, run_wired, run_contracts, run_detected, run_proposed, run_loaded,
  run_no_boundaries, plan_write, plan_write_no_boundaries, run_characterized, derive_all,
  run_guarded, store_artifacts, run, run_derived, RunError, Pipeline, Job, State, Outcome, plan_of,
  augmented_of, no_ownership, after_write,
}
use milton_prism.Migration.Domain.{CrossServiceFk}

-- A pipeline with every optional port, whose workspace can be acquired.
abbrev pub wired :
    Texts
    → (ℕ → Option (List Edge))
    → (List Edge → Option Classification)
    → (List Edge → Classification → Option ClusteringResult)
    → (List Cluster → Cluster → Option DerivedContract)
    → Ports
    → (ℕ → Bool)
    → Pipeline
wired texts load detect cluster derive ports fault = record {
  texts = texts;
  load = load;
  detect = detect;
  clusterer = some cluster;
  has_allocator = true;
  deriver = some (record { acquires = true; derive = derive });
  plan_writer = some ports;
  artifact_fault = some fault;
}

add_deps_none : (fks : List CrossServiceFk) → add_deps fks [] ≡ []
unfolding add_deps add_dep
add_deps_none [] = refl
add_deps_none (fk ∷ fks) =
    if_ind (λ (ks : List ServiceCandidate). add_deps fks ks ≡ []) (is_empty fk.ref_service) [] []
      (add_deps_none fks) (add_deps_none fks)

-- With no candidate the plan is the one that says so.
plan_of_none :
    (decimal : ℕ → String) (cr : ClusteringResult) (contracts : List DerivedContract)
    → plan_of decimal cr [] contracts ≡ assemble_plan decimal [] no_ownership (some cr)
unfolding plan_of augmented_of augment_data_deps assemble_plan
plan_of_none decimal cr contracts =
    rw (add_deps_none (analyze_data_ownership [] contracts).cross_service_fks) refl

abbrev proposes : RestructurePlan → Doc → Doc
proposes plan d = record d { plan = some plan; state = awaiting_approval }

write_plan_ok :
    (p : Ports) (id : ℕ) (plan : RestructurePlan) (w : World) (d : Doc)
    → IsHealthy p
    → w.docs id ≡ some d
    → d.deleted ≡ false
    → write_plan p id plan w ≡ (ok tt, put_doc (tick w) id (proposes plan d))
unfolding write_plan
write_plan_ok p id plan w d h e l =
    rw (h w.clock, e, l, ◌>>=◌, map_error, update_one, command, run_update, update_matching, guard)
      refl

module _ (texts : Texts) (load : ℕ → Option (List Edge))
    (detect : List Edge → Option Classification)
    (cluster : List Edge → Classification → Option ClusteringResult)
    (derive : List Cluster → Cluster → Option DerivedContract) (ports : Ports) (fault : ℕ → Bool)
    (job : Job) where
  abbrev pub full : Pipeline
  full = wired texts load detect cluster derive ports fault

  -- The migration of the job has the plan and waits for approval, and the others are as they were.
  pub record Proposed (plan : RestructurePlan) (d : Doc) (s : State) (o : Outcome) : Type 0 where
    pub no_error : o.0 ≡ none
    pub written :
        o.1.world.docs job.migration_id
        ≡ some (record d { plan = some plan; state = awaiting_approval })
    pub others : (j : ℕ) → j ≢ job.migration_id → o.1.world.docs j ≡ s.world.docs j

  module _ (s : State) (d : Doc) (healthy : IsHealthy ports)
      (stored : s.world.docs job.migration_id ≡ some d) (live : d.deleted ≡ false) where
    after-Proposed :
        (label : Error → RunError) (further : State → State)
        (same : (u : State) → (further u).world ≡ u.world) (plan : RestructurePlan) (t : Assigned)
        → Proposed plan d s (
            after_write label further
              (record s { assigned = t })
              (write_plan ports job.migration_id plan s.world))
    unfolding put_doc
    after-Proposed label further same plan t =
        rw (write_plan_ok ports job.migration_id plan s.world d healthy stored live) (record {
          no_error = refl;
          written = rw (same _, (==_iff job.migration_id job.migration_id).1 refl) refl;
          others = λ j other. rw (same _) (ground (arith, other));
        })

    characterized-Proposed :
        (cr : ClusteringResult) (candidates : List ServiceCandidate) (t : Assigned)
        → Proposed
            (plan_of texts.format.decimal cr candidates
              (derive_all (derive cr.clusters) cr.clusters))
            d
            s
            (run_characterized full job cr s (some candidates, t))
    unfolding run_derived store_artifacts run_characterized run_no_boundaries run_proposed
        run_contracts
    characterized-Proposed cr [] t =
        rw (plan_of_none texts.format.decimal cr (derive_all (derive cr.clusters) cr.clusters)) (
          after-Proposed plan_write_no_boundaries (λ u. u) (λ u. refl)
            (assemble_plan texts.format.decimal [] no_ownership (some cr)) t)
    characterized-Proposed cr (k ∷ ks) t =
        let contracts = derive_all (derive cr.clusters) cr.clusters in
        after-Proposed plan_write
          (store_artifacts full job.migration_id
            (plan_of texts.format.decimal cr (k ∷ ks) contracts) contracts
            (analyze_data_ownership (k ∷ ks) contracts) (augmented_of (k ∷ ks) contracts))
          (λ u. refl) (plan_of texts.format.decimal cr (k ∷ ks) contracts) t

    -- If every port is wired and answers, the allocator has a prefix for each cluster and the database
    -- answers, a job on a live migration returns no error: it leaves the migration with the plan of the
    -- clusters that passed the guardrail, waiting for approval, and every other migration as it was.
    pub run-Proposed :
        (graph : List Edge) (cls : Classification) (cr guarded : ClusteringResult)
        (candidates : List ServiceCandidate) (t : Assigned)
        → load job.summary_id ≡ some graph
        → detect graph ≡ some cls
        → cluster (domain_subgraph graph cls.domain) cls ≡ some cr
        → (apply_coherence_guardrail cls cr (domain_subgraph graph cls.domain)).1 ≡ guarded
        → characterize texts (domain_subgraph graph cls.domain) guarded.clusters s.assigned
          ≡ (some candidates, t)
        → Proposed
            (plan_of texts.format.decimal guarded candidates
              (derive_all (derive guarded.clusters) guarded.clusters))
            d
            s
            (run full job s)
    unfolding run run_loaded run_detected run_wired run_clustered run_guarded
    run-Proposed graph cls cr guarded candidates t l g c q k =
        rw (l, g, c, q, k) (characterized-Proposed guarded candidates t)
