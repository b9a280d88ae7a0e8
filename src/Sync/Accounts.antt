-- ===== src/Sync/Accounts.antt =====
-- The accounts of crates/nunciod/src/sync.rs: `find_account`, `build_mail_backend`,
-- `run_account_sync` and `run_all_accounts_sync`. The vault and the two protocol engines are
-- parameters. Message counts are below 2^64.
pub mod Batch
pub mod Single
mod Tests
use nuncio.Common.{
  ℕ, ◌+◌, String, List, [], ◌∷◌, Option, none, some, Result, ok, err, find, str_eq, map_err,
}
use nuncio.Common.Text.{◌⧺◌}
use nuncio.Common.Action.{Action, ◌>>=◌, pure}
use nuncio.Core.Config.{AccountConfig, imap_smtp, jmap, TlsMode, AccountProtocol}
use nuncio.Core.EventBus.{sync_all, report_error, process_command, complete_sync}
use nuncio.Filter.Platform.{Platform}
use nuncio.Filter.Engine.{FilterEngine}
use nuncio.Store.Host.{Host}
use nuncio.Store.Database.{show_database_error, DatabaseError, SqlxError}
use nuncio.Store.Accounts.{list_accounts}
use nuncio.Store.Vault.{VaultError, show_vault_error}
use nuncio.Sync.Backend.{MailBackend, SyncError, account_not_found, vault, show_sync_error}
use nuncio.Sync.Fetch.{Daemon, on_db, fetch_and_persist, sync_with_backend}

-- The vault's `get_secret`, and `ImapEngine::with_credentials` and `JmapEngine::with_credentials`.
pub record Outside : Type 0 where
  pub get_secret : (key : String) → Result VaultError String
  pub imap_engine :
      (id server_host : String) (server_port : ℕ) (imap_tls_mode : TlsMode)
      (email_address password : String)
      → MailBackend
  pub jmap_engine : (id server_host email_address password : String) → MailBackend

module _ (outside : Outside) where
  build_for : AccountProtocol → AccountConfig → String → MailBackend
  build_for imap_smtp config password =
      outside.imap_engine config.id config.server_host config.server_port config.imap_tls_mode
        config.email_address password
  build_for jmap config password =
      outside.jmap_engine config.id config.server_host config.email_address password

  unfoldable pub build_mail_backend : AccountConfig → String → MailBackend
  unfolding build_for
  build_mail_backend config password = build_for config.protocol config password

-- `ok_or_else`
unfoldable pub known : String → Option AccountConfig → Result SyncError AccountConfig
known account_id none = err (account_not_found account_id)
known account_id (some config) = ok config

module _ (p : Platform) (host : Host) (outside : Outside) (filter_engine : FilterEngine p)
    (show_sqlx : SqlxError → String) where
  unfoldable pub find_account : String → Action Daemon SyncError AccountConfig
  find_account account_id = do
    accounts ← on_db (list_accounts host)
    λ d. (known account_id (find (λ a. str_eq a.id account_id) accounts), d)

  -- The block `setup`, after the account was found.
  unfoldable pub unlock : AccountConfig → Action Daemon SyncError MailBackend
  unlock config = do
    password ← λ d. (map_err vault (outside.get_secret config.keyring_secret_key), d)
    pure (build_mail_backend outside config password)

  unfoldable pub set_up : String → Action Daemon SyncError MailBackend
  set_up account_id = do config ← find_account account_id; unlock config

  -- The `match` on `setup`.
  unfoldable pub run_set_up :
      String → Result SyncError MailBackend × Daemon → Result SyncError ℕ × Daemon
  run_set_up account_id (ok backend, d) =
      sync_with_backend p host backend filter_engine show_sqlx (some account_id) d
  run_set_up account_id (err e, d) = (
    err e,
    record d {
      bus = process_command d.bus (
          report_error
            ("cannot sync account '" ⧺ account_id ⧺ "': " ⧺ show_sync_error show_sqlx e));
    },
  )

  unfoldable pub run_account_sync : String → Action Daemon SyncError ℕ
  run_account_sync account_id d = run_set_up account_id (set_up account_id d)

  unfoldable pub count_fetched : AccountConfig → ℕ → Result SyncError ℕ × Daemon → ℕ × Daemon
  count_fetched config total (ok count, d) = (total + count, d)
  count_fetched config total (err e, d) = (
    total,
    record d {
      bus = process_command d.bus (
          report_error
            ("sync failed for account '" ⧺ config.id ⧺ "': " ⧺ show_sync_error show_sqlx e));
    },
  )

  -- The body of the loop over the accounts.
  unfoldable pub sync_one : AccountConfig → Result VaultError String → ℕ → Daemon → ℕ × Daemon
  sync_one config (ok password) total d = count_fetched config total (
      fetch_and_persist p host (build_mail_backend outside config password) filter_engine
        (some config.id) d)
  sync_one config (err e) total d = (
    total,
    record d {
      bus = process_command d.bus (
          report_error
            ("cannot read credential for account '" ⧺ config.id ⧺ "': " ⧺ show_vault_error e));
    },
  )

  unfoldable pub sync_each : List AccountConfig → ℕ → Daemon → ℕ × Daemon
  sync_each [] total d = (total, d)
  sync_each (config ∷ configs) total d =
      let (total, d) = sync_one config (outside.get_secret config.keyring_secret_key) total d in
      sync_each configs total d

  unfoldable pub sync_listed : Result DatabaseError (List AccountConfig) → Daemon → ℕ × Daemon
  sync_listed (ok accounts) d = sync_each accounts 0 d
  sync_listed (err e) d = (
    0,
    record d {
      bus =
          process_command d.bus
            (report_error ("failed to list accounts for sync: " ⧺ show_database_error show_sqlx e));
    },
  )

  unfoldable pub run_all_accounts_sync : Daemon → ℕ × Daemon
  run_all_accounts_sync d =
      let (accounts, db) = list_accounts host d.db in
      let (total, d) =
        sync_listed accounts (record { db = db; bus = process_command d.bus sync_all }) in
      (total, record d { bus = (complete_sync d.bus none).0 })
