-- ===== src/Worker.antt =====
-- core/worker: the parts of the analysis and decomposition workers that stand on their own.
pub mod Prefixes
pub mod Prefix
pub mod Technologies
pub mod Merge
pub mod Examples
