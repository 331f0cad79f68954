-- ===== src/Migration.antt =====
-- core/services/migration: the migration service, its Mongo store, and the workers that write to the
-- same collection.
pub mod Domain
pub mod World
pub mod Ports
pub mod Store
pub mod Sequence
pub mod Lifecycle
pub mod Start
pub mod Approval
pub mod Roadmap
pub mod Plan
pub mod Restructure
pub mod Publish
pub mod Generated
pub mod Grouping
pub mod Keeps
pub mod Calls
pub mod Under
pub mod Diagram
pub mod Atomic
pub mod Immutable
pub mod Ends
pub mod Gate
pub mod Healthy
pub mod Workers
pub mod Late
pub mod Races
pub mod Conflicts
pub mod Agreement
pub mod Identifiers
pub mod Restart
pub mod Steps
pub mod Moves
pub mod Examples
pub mod Requests
pub mod Journey
