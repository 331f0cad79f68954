-- ===== src/Migration/Moves.antt =====
-- The requests of the migration service, one by one: what each does to the collection.
pub mod Edits
pub mod Terms
pub mod Failures
pub mod Losses
pub mod Births
pub mod Starts
pub mod Notes
