-- ===== src/Decomposition.antt =====
-- core/worker/decomposition: the worker that proposes services for the modules of a repository.
pub mod Domain
pub mod Characterize
pub mod Ownership
pub mod Boundary
pub mod Plan
pub mod Artifacts
pub mod Run
pub mod Clusterers
pub mod Detector
pub mod Classes
pub mod Members
pub mod Places
pub mod Augmented
pub mod Dependence
pub mod Refinement
pub mod Codes
pub mod Flags
pub mod Coherence
pub mod Partition
pub mod Outcome
pub mod Failures
pub mod Unfinished
pub mod Stale
pub mod Examples
