-- ===== src/Rpc.antt =====
-- crates/nunciod/src/grpc.rs: the handlers of the daemon's gRPC services.
pub mod Service
pub mod Accounts
pub mod Triage
pub mod Filters
