-- ===== src/Core.antt =====
-- crates/nuncio-core: the domain model, the event bus and the audit records.
pub mod Model
pub mod EventBus
pub mod WormAudit
pub mod Config
pub mod Policy
pub mod Update
mod Tests
