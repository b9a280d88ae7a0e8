-- ===== src/Sync.antt =====
-- crates/nunciod/src/sync.rs: inbound synchronisation of one account through a mail backend.
pub mod Accounts
pub mod Backend
pub mod Actions
pub mod Fetch
pub mod Frame
pub mod Routing
pub mod Audit
pub mod Resync
pub mod Firing
pub mod Lifecycle
pub mod Landed
pub mod Tests
