-- ===== src/Store.antt =====
-- crates/nuncio-store and the records of crates/nuncio-filter that it keeps: the database of the
-- daemon, as far as synchronisation uses it.
pub mod Host
pub mod Cipher
pub mod Outbox
pub mod Database
pub mod Messages
pub mod Queue
pub mod Ledger
pub mod Worker
pub mod Worm
pub mod Vault
pub mod Chunk
pub mod Rules
pub mod Accounts
pub mod Tests
