-- ===== src/Store/Database.antt =====
-- crates/nuncio-store/src/db.rs: the tables that synchronisation uses, the errors, and the execution
-- of a statement. SQLite and sqlx are not modelled: a statement takes effect or fails.
pub mod Statements
use nuncio.Common.{
  ℕ, ◌+◌, String, Bool, true, false, List, [], ◌∷◌, Option, none, some, Result, ok, err,
}
use nuncio.Common.Int.{ℤ}
use nuncio.Common.Text.{◌⧺◌}
use nuncio.Common.Action.{Action}
use nuncio.Core.WormAudit.{WormAuditRecord}
use nuncio.Store.Outbox.{PendingRemoteMutation, FilterExecutionLog}

-- `sqlx::Error`, of which the code tells `RowNotFound` apart.
pub data SqlxError : Type 0 where
  row_not_found : SqlxError
  failure : String → SqlxError

pub data DatabaseError : Type 0 where
  pool_creation migration : String → DatabaseError
  query : SqlxError → DatabaseError
  corrupted recovery_failed chain_integrity_failed key_provisioning : String → DatabaseError

unfoldable pub is_not_found : DatabaseError → Bool
is_not_found (query row_not_found) = true
is_not_found _ = false

-- `show_sqlx` is the text that sqlx gives its error.
module _ (show_sqlx : SqlxError → String) where
  unfoldable pub show_database_error : DatabaseError → String
  show_database_error (pool_creation e) = "failed to create sqlite connection pool: " ⧺ e
  show_database_error (migration e) = "failed to run database migration: " ⧺ e
  show_database_error (query e) = "database query execution error: " ⧺ show_sqlx e
  show_database_error (corrupted e) = "database corruption detected: " ⧺ e
  show_database_error (recovery_failed e) = "database recovery error: " ⧺ e
  show_database_error (chain_integrity_failed e) = "audit chain integrity error: " ⧺ e
  show_database_error (key_provisioning e) = "cryptographic key provisioning failed: " ⧺ e

-- A row of `messages`; the bodies are ciphertext.
pub record MessageRow : Type 0 where
  pub id : String
  pub account_id : String
  pub folder_id : String
  pub subject : String
  pub sender : String
  pub recipient : String
  pub received_at : ℤ
  pub read_flag : ℕ
  pub body_plain : Option String
  pub body_html : Option String

-- A row of `messages_fts`; the body is plaintext.
pub record IndexRow : Type 0 where
  pub id : String
  pub subject : String
  pub sender : String
  pub body_plain : String

pub record SyncStateRow : Type 0 where
  pub account_id : String
  pub folder_id : String
  pub state : String

-- A row of `accounts`; numbers are `INTEGER` columns.
pub record AccountRow : Type 0 where
  pub id : String
  pub name : String
  pub email_address : String
  pub protocol : String
  pub server_host : String
  pub server_port : ℤ
  pub use_tls : ℤ
  pub keyring_secret_key : String
  pub sync_interval_secs : ℤ
  pub smtp_host : Option String
  pub smtp_port : Option ℤ
  pub imap_tls_mode : String
  pub smtp_tls_mode : String

-- A row of `filter_rules`; its conditions and actions are in the text.
pub record RuleRow : Type 0 where
  pub id : String
  pub name : String
  pub priority : ℤ
  pub enabled : ℤ
  pub nsql_text : String
  pub created_at : ℤ
  pub updated_at : ℤ

-- `DatabaseEngine`: its keys, the tables, and what the surroundings have in store for it: the
-- outcome of the coming statements (`none` or no entry for success), and how often the clock and
-- the random source were read.
pub record Database : Type 0 where
  pub storage_key : List ℕ
  pub ledger_key : List ℕ
  pub worm_key : List ℕ
  pub accounts : List AccountRow
  pub messages : List MessageRow
  pub messages_fts : List IndexRow
  pub folder_sync_state : List SyncStateRow
  pub filter_rules : List RuleRow
  pub pending_remote_mutations : List PendingRemoteMutation
  -- Oldest first: ids ascend.
  pub filter_execution_logs : List FilterExecutionLog
  pub worm_audit_records : List WormAuditRecord
  pub outcomes : List (Option String)
  pub ticks : ℕ
  pub randoms : ℕ

abbrev pub Db : Type 0 → Type 0
Db A = Action Database DatabaseError A

-- What a statement that is executed does, apart from its effect on the tables.
unfoldable pub outcome : List (Option String) → Db (Unit {0})
outcome [] db = (ok tt, db)
outcome (none ∷ rest) db = (ok tt, record db { outcomes = rest })
outcome (some e ∷ rest) db = (err (query (failure e)), record db { outcomes = rest })

unfoldable pub statement : Db (Unit {0})
unfolding outcome
statement db = outcome db.outcomes db

-- Reads of the tables, and writes to them.
abbrev pub select : {A : Type 0} → (Database → A) → Db A
select f db = (ok (f db), db)

abbrev pub modify : (Database → Database) → Db (Unit {0})
modify f db = (ok tt, f db)
