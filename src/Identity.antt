-- ===== src/Identity.antt =====
-- core/services/identity: the accounts of users, their sessions and their tokens.
pub mod World
pub mod Users
pub mod Accounts
pub mod Access
pub mod Lookup
pub mod Ended
pub mod Renewal
pub mod Masks
pub mod Credentials
pub mod Examples
