-- ===== src/Lib.antt =====
-- Nuncio: the mail engine (crates/). Messages are fetched from a mail backend into an SQLite
-- database, filter rules fire on the ones that are new, and what fires is queued for the server and
-- recorded in a ledger; an event bus tells the clients.
--
-- Core models crates/nuncio-core. Core/Model has the messages and folders of src/model.rs.
-- Core/EventBus is src/lib.rs: the record EventBus holds the watched state, the events published so
-- far and the command queue; process_command and complete_sync are functions on it. Core/WormAudit
-- is src/worm_audit.rs, with HMAC and SHA-256 in the record Crypto. Core/Config is the validation
-- of src/config.rs, Core/Policy the folder test of src/mcp_policy.rs, Core/Update the comparison of
-- versions of src/update.rs.
--
-- Filter models crates/nuncio-filter. Filter/Ast is src/ast.rs. Filter/Compiled and Filter/Engine
-- are src/engine.rs: compile collects the regular expressions of a rule, evaluate and preview run
-- the compiled rules in order, reload_rules replaces them. Filter/Validator is src/validator.rs:
-- its six passes are functions into Check, composed by validate. The regex crate and Unicode
-- lower-casing are fields of the record Platform.
--
-- Store models crates/nuncio-store, and the outbox of crates/nuncio-filter/src/outbox.rs.
-- Store/Database has the tables as lists of rows; Store/Accounts, Store/Messages, Store/Queue,
-- Store/Ledger, Store/Worm, Store/Rules and Store/Chunk have the methods of DatabaseEngine
-- (src/db.rs) on them, as actions that return a result and the database afterwards. Each SQL
-- statement may fail: the field outcomes of the database lists what the coming statements do, and a
-- transaction that is not committed changes no table. Store/Cipher is src/cipher.rs, Store/Worker a
-- round of the outbox worker of crates/nunciod/src/main.rs. Clock, random source, AES-256-GCM,
-- SHA-256, HMAC, hex, UTF-8 decoding and JSON are fields of the record Host.
--
-- Sync models crates/nunciod/src/sync.rs. A Daemon is a database and an event bus; Sync/Actions has
-- apply_filter_actions and is_new_message, Sync/Fetch has fetch_and_persist and sync_with_backend,
-- Sync/Accounts has run_account_sync and run_all_accounts_sync over the account table, with the
-- vault and the two protocol engines in the record Outside. The trait MailBackend
-- (crates/nuncio-mail/src/backend.rs) is a record of answers. Sync evaluates rules through
-- Filter/Engine, writes through Store and publishes through Core/EventBus.
--
-- Store/Vault is crates/nuncio-store/src/vault.rs: a map of secrets whose calls may be refused. Rpc
-- models handlers of crates/nunciod/src/grpc.rs. Rpc/Service has what they share: a database, a
-- vault and the status of a failed call. Rpc/Accounts has the service Accounts, with its messages
-- in Rpc/Accounts/Wire: the handlers write the account row through Store/Accounts and the password
-- through Store/Vault, and roll the one back when the other fails. Rpc/Triage is the worker of the
-- RPC triage, which reads Store/Chunk page by page and fires the filters of Sync/Actions.
-- Rpc/Filters has the handlers of the service Filters that write rules: Store/Rules is their table,
-- with the parser of rule texts as a parameter, and every write is followed by a reload of the live
-- engine.
--
-- Machine integers are natural numbers or ℤ of Common/Int; where the code saturates, wraps or casts
-- this is written out, and counters of messages are taken to stay below 2^64. Every loop of the
-- code is a structural recursion, with two exceptions: decimal printing runs on n + 1 rounds, of
-- which each drops a digit, and triage on one round for every stored message and one more, since
-- every page but the last moves past a message.
--
-- Not modelled: SQLite and sqlx, IMAP, JMAP, SMTP, CalDAV and CardDAV connections, the other gRPC
-- services, the command line, file recovery, export, calendar and contacts, the updater but for its
-- comparison of versions, the account test and the content filter of agent policies, and the parser
-- of rule texts, which rests on the sqlparser crate.
pub mod Common
pub mod Core
pub mod Filter
pub mod Store
pub mod Sync
pub mod Rpc
