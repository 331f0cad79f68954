-- ===== src/Lib.antt =====
-- milton-prism takes a monolith apart into services: a repository is analysed, a plan of services is
-- designed and approved, code is generated for it and published. A migration is the record of one such
-- run. It is kept in the MongoDB collection `migrations`, which the migration service and three workers
-- write to.
--
-- Program and model. `Migration` is core/services/migration and what the workers write to its collection:
--   Migration/Domain     domain/domain.go and domain/errors.go: states, errors, the messages' fields
--   Migration/World      the collection, the counter, the calls made; actions, and how the code
--                        composes them (early return, wrapped error, optional port, best effort)
--   Migration/Ports      ports/: the other services, the queues, the language models, the driver
--   Migration/Store      infrastructure/repositories/mongo_migration_repository.go: migrationToDoc,
--                        migrationDocToDomain, GetByID, UpdateState, the setters, SoftDelete, AdoptAnalysis
--   Migration/Sequence   infrastructure/repositories/identifier.go (generateIdentifier),
--                        mongo_transaction_manager.go, Create
--   Migration/Lifecycle  application/service.go: CreateMigration, GetMigration, DeleteMigration,
--                        CancelMigration, isTerminalState
--   Migration/Start      StartMigration, startWithReuse, startNormal
--   Migration/Approval   ApproveDesign, AssessMigrability, SetMigrabilityOverride, migrabilityBlocked
--   Migration/Roadmap    signalToActionItem, parseHubModule, parseGodModules, formatModuleList
--   Migration/Plan       buildActionPlan, assembleRoadmap, syntheticAssessmentFromScore
--   Migration/Restructure GenerateRestructuringRoadmap, EnrichRoadmap, GenerateBlueprint
--   Migration/Publish    GetGenerationPackage, PublishMigration, detectPathConflicts
--   Migration/Generated  GetGenerationArtifacts
--   Migration/Workers    mongo_plan_writer.go, mongo_summary_writer.go and
--                        mongo_migration_state_updater.go under core/worker
--   Migration/Requests   the requests as data, and a run of several
-- `Worker` is parts of core/worker that stand on their own:
--   Worker/Prefixes      decomposition/infrastructure/adapters/deterministic_prefix_allocator.go
--   Worker/Technologies  analysis/application/merge_technologies.go
-- `Decomposition` is the worker that proposes the services, core/worker/decomposition:
--   Decomposition/Domain  domain/domain.go, with DomainSubgraph, IsIncoherentFallback and, from
--                        application/pipeline.go, ApplyCoherenceGuardrail
--   Decomposition/Characterize application/pipeline.go: characterize, serviceNameFromBlueprint
--   Decomposition/Ownership analyzeDataOwnership, augmentDataDeps
--   Decomposition/Plan   assemblePlan
--   Decomposition/Boundary domain/domain.go: BuildBoundarySpecYAML
--   Decomposition/Artifacts buildArtifacts, infrastructure/adapters/mongo_artifact_store.go
--   Decomposition/Clusterers application/llm_clusterer.go and infrastructure/adapters/cascade_clusterer.go
--   Decomposition/Detector infrastructure/adapters/deterministic_infra_detector.go
--   Decomposition/Run    Run and MarkFailed, which write to the migration by Migration/Workers, and
--                        jobs/decompose_job.go
-- `Generation` is the worker that generates the services, core/worker/generation:
--   Generation/Records   domain/domain.go and ports/agent_invoker.go
--   Generation/Store     infrastructure/adapters/mongo_generation_store.go
--   Generation/Agent     application/pipeline.go: isTransientError, the loop over the attempts in
--                        generateService and the record that it makes
--   Generation/Package   infrastructure/adapters/mongo_generation_package_reader.go
--   Generation/Service   generateService, the goroutines that Run starts, and their interleavings
--   Generation/Aggregator application/error_aggregator.go
--   Generation/Run       Run, which ends by the writes of Migration/Workers to the migration
-- `Identity` is core/services/identity, the accounts that own the migrations:
--   Identity/World       the users, the sessions, ports/auth.go, and how the code composes calls
--   Identity/Users       infrastructure/repositories/mongo_user_repository.go: GetByID,
--                        GetCredentialsByEmail, Update, SoftDelete
--   Identity/Accounts    application/service.go: GetUser, UpdateUser, DeleteUser
--   Identity/Access      AuthenticateUser, RefreshToken, Logout; infrastructure/repositories/session_store.go
-- `Score` is the score of a monolith, core/worker/decomposition:
--   Score/Digest         domain/digest.go and domain/score.go
--   Score/Signals        application/scorer.go: the five signals, the value and the band
--   Score/Cycles         application/cycles.go: the search for strongly connected components
--   Score/Findings       the findings and the blockers, and those of application/cycles.go
--
-- The proofs have modules of their own. Migration/Keeps and Migration/Calls have the rules by which a relation between the
-- world before and after passes through an action, Migration/Under the rules for what follows a read,
-- Migration/Atomic those for a failure and Migration/Ends those for a success. Migration/Diagram is the
-- state diagram, Migration/Immutable the fields that no request writes. Migration/Moves applies the rules
-- to each request; Migration/Journey, Gate, Steps, Restart, Races, Late, Conflicts, Agreement and Identifiers draw the conclusions.
-- For Decomposition: Members, Places and Augmented follow the dependencies of one candidate, Dependence has
-- the relation that they stand for; Refinement, Codes, Flags, Coherence, Partition, Classes, Outcome, Failures, Unfinished and
-- Stale draw the conclusions.
-- For Generation: Retry is the loop over the attempts, Keys the records as a map, Interleaving and Tasks the
-- goroutines, Results the record that one leaves, Idempotence, Done, Decision, Completion, Ready, Free,
-- Reasons and Mirror the conclusions.
-- For Identity: Lookup is reads behind writes, Credentials, Masks, Ended and Renewal the conclusions.
-- For Score: Bounds, Blockers and Fuel, which is about the search for components.
-- Migration/Examples, Worker/Examples, Decomposition/Examples, Generation/Examples, Identity/Examples and Score/Examples apply them to concrete data.
--
-- Choices. An action is a function from a world to a result and a world. Every call that leaves the
-- process takes one tick of a clock, and what it answers is a function of the time, so that a database
-- command or a port may fail at any one call and succeed at the next. A document is looked up by its
-- identifier, which has a unique index, and `UpdateOne` is the look-up, the rest of the filter and the
-- `$set`. A command that fails at the driver
-- has not been executed: a write whose acknowledgement is lost is not modelled. Sub-documents are stored as message bytes by a codec
-- that is taken as exact. A request runs alone, except in Migration/Races, where one is served between the
-- read and the write of another. Identifiers, penalties and scores are natural numbers, without the
-- bound of their width: no operation on them but the count of identifiers can overflow.
--
-- A job of the generation worker is a function of what it meets: the answers of the agent by service and
-- attempt, the writes that fail, the schedule. A goroutine is the list of its effects on what is shared,
-- and a schedule gives an interleaving of these lists; the limits that the semaphore and the order of the
-- loop put on it are left off, so that more interleavings are allowed than occur. The attempts that remain
-- are counted down from the three of the code.
--
-- A job of the decomposition is a function of the answers of its ports; sorting is insertion sort by the
-- test that the source passes, which keeps elements of equal keys in order, and maps are lists in which the
-- last entry of a key counts. The digest and the verdict of stages 3b and 3c only go to the log.
--
-- The ramps of the score are computed with floats in the source; the model computes the same fractions
-- exactly and rounds halves up. The sum of the nodes and the fan-in wraps at 2^32 as in the source.
--
-- Fuel. The loop of generateIdentifier has three attempts and the loop of the allocator the 98 suffixes
-- from 2 to 99; both numbers are the code's. The search for components has as much fuel as the graph has
-- nodes, which is enough since each call below another visits a node that was not visited. No other
-- definition has fuel.
--
-- Parameters: `sort.Slice` and `sort.Strings`, `strings.ToUpper` and the printing of numbers, and every
-- port. The transaction of the driver commits or rolls back once: its own retries are not modelled.
--
-- Not modelled: logs, and the update times of migrations; ListMigrations, BackfillRepositoryURLs
-- and ExportActionPlanPrompt; the collection of analysis summaries; CreateUser and the lists of users;
-- the pipeline of the analysis; the Louvain clusterer, the detector for
-- PHP, the contract derivers and the prompts of the decomposition, which are behind its ports, and the table map that is read
-- from the workspace; the container in which the agent runs; the
-- other services; handlers, adapters and wiring.
pub mod Prelude
pub mod Migration
pub mod Worker
pub mod Decomposition
pub mod Generation
pub mod Identity
pub mod Score
