-- ===== src/Score.antt =====
-- core/worker/decomposition: how well a monolith can be taken apart, as a score.
pub mod Digest
pub mod Cycles
pub mod Signals
pub mod Findings
pub mod Bounds
pub mod Fuel
pub mod Blockers
pub mod Examples
