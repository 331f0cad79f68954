-- ===== src/Generation.antt =====
-- core/worker/generation: the worker that generates the services of an approved migration.
pub mod Records
pub mod Store
pub mod Agent
pub mod Package
pub mod Specs
pub mod Service
pub mod Aggregator
pub mod Run
pub mod Retry
pub mod Keys
pub mod Interleaving
pub mod Tasks
pub mod Idempotence
pub mod Done
pub mod Decision
pub mod Results
pub mod Completion
pub mod Ready
pub mod Free
pub mod Reasons
pub mod Mirror
pub mod Examples
