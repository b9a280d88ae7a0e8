-- ===== src/Rpc/Accounts.antt =====
-- The handlers of the service `Accounts` of crates/nunciod/src/grpc.rs. Requests and responses with a
-- single field are that field.
pub mod Wire
pub mod RoundTrip
pub mod Added
pub mod Rotation
pub mod Updated
pub mod Removed
mod Tests
use nuncio.Common.{
  ℕ, ◌+◌, String, Bool, true, false, List, map, Option, none, some, Result, ok, err, map_err,
  str_eq, if◌then◌else◌,
}
use nuncio.Common.Text.{◌⧺◌}
use nuncio.Common.Action.{Action, ◌>>=◌, ◌>>◌, pure}
use nuncio.Core.Config.{
  AccountProtocol, jmap, imap_smtp, AccountConfig, ConfigError, validate_account, show_config_error,
}
use nuncio.Store.Host.{Host}
use nuncio.Store.Database.{DatabaseError, SqlxError, show_database_error}
use nuncio.Store.Accounts.{save_account, list_accounts, get_account, delete_account}
use nuncio.Store.Vault.{Vault, VaultError, show_vault_error, get_secret, set_secret, delete_secret}
use nuncio.Rpc.Service.{
  Status, invalid_argument, not_found, internal, Service, Handler, given, ok_or, reject, attempt,
  on_db, on_vault,
}
use nuncio.Rpc.Accounts.Wire.{
  AccountConfigProto, AddAccountRequest, UpdateAccountRequest, TestAccountConnectionResponse,
  map_account_config_to_proto, map_account_config_from_proto,
}

-- A probe of one endpoint, and of both.
pub record ProtocolProbe : Type 0 where
  pub ok_flag : Bool
  pub error : Option String

pub record AccountConnectionReport : Type 0 where
  pub imap : ProtocolProbe
  pub smtp : ProtocolProbe

-- `config.validate().map_err(..)`
unfoldable pub admit : AccountConfig → Result Status (Unit {0})
admit config = map_err (λ e. invalid_argument (show_config_error e)) (validate_account config)

-- The text of a save that failed, with that of the rollback if it failed too.
unfoldable pub persist_failure : String → Result VaultError (Unit {0}) → Status
persist_failure e (ok u) = internal ("failed to persist account: " ⧺ e)
persist_failure e (err rollback_err) = internal (
    "failed to persist account: "
    ⧺ e
    ⧺ " (and failed to roll back the credential: "
    ⧺ show_vault_error rollback_err
    ⧺ ")")

unfoldable pub absent : String → Status
absent id = not_found ("account '" ⧺ id ⧺ "' not found")

-- `Result::ok`
unfoldable pub readable : Result VaultError String → Option String
readable (ok secret) = some secret
readable (err e) = none

-- The `match` on the prior secret.
unfoldable pub restore : String → Option String → Vault → Result VaultError (Unit {0}) × Vault
restore key (some prior) = set_secret key prior
restore key none = delete_secret key

module _ (host : Host) (show_sqlx : SqlxError → String) where
  -- What follows the save of an account whose password was written.
  unfoldable pub after_add :
      AccountConfig → Result DatabaseError (Unit {0}) × Service → Result Status String × Service
  after_add config (ok u, s) = (ok config.id, s)
  after_add config (err e, s) =
      let (rollback, secrets) = delete_secret config.keyring_secret_key s.secrets in
      (
        err (persist_failure (show_database_error show_sqlx e) rollback),
        record s { secrets = secrets },
      )

  unfoldable pub add_config : AccountConfig → String → Handler String
  add_config config password = do
    given (admit config)
    on_vault "failed to store credential in vault: " (set_secret config.keyring_secret_key password)
    λ s. after_add config (attempt (save_account host config) s)

  unfoldable pub add_account : AddAccountRequest → Handler String
  add_account req = do
    proto_config ← given (ok_or (invalid_argument "config is required") req.config)
    given (reject (str_eq req.password "") (invalid_argument "password is required"))
    config ← given (map_account_config_from_proto proto_config)
    add_config config req.password

  unfoldable pub list_all : Handler (List AccountConfigProto)
  list_all = do
    accounts ← on_db show_sqlx "failed to list accounts: " (list_accounts host)
    pure (map map_account_config_to_proto accounts)

  unfoldable pub after_rotation :
      AccountConfig
      → Option String
      → Result DatabaseError (Unit {0}) × Service
      → Result Status (Unit {0}) × Service
  after_rotation config previous (ok u, s) = (ok tt, s)
  after_rotation config previous (err e, s) =
      let (rollback, secrets) = restore config.keyring_secret_key previous s.secrets in
      (
        err (persist_failure (show_database_error show_sqlx e) rollback),
        record s { secrets = secrets },
      )

  unfoldable pub rotate_credential_and_persist : AccountConfig → String → Handler (Unit {0})
  rotate_credential_and_persist config new_password = do
    previous ← λ s.
        let (secret, secrets) = get_secret config.keyring_secret_key s.secrets in
        (ok (readable secret), record s { secrets = secrets })
    on_vault "failed to store credential in vault: "
        (set_secret config.keyring_secret_key new_password)
    λ s. after_rotation config previous (attempt (save_account host config) s)

  -- An account that the database holds.
  unfoldable pub existing : String → Handler AccountConfig
  existing id = do
    account ← on_db show_sqlx "failed to look up account: " (get_account host id)
    given (ok_or (absent id) account)

  unfoldable pub write_update : AccountConfig → Option String → Handler (Unit {0})
  write_update config none =
      on_db show_sqlx "failed to persist account: " (save_account host config)
  write_update config (some password) =
      if str_eq password ""
      then on_db show_sqlx "failed to persist account: " (save_account host config)
      else rotate_credential_and_persist config password

  unfoldable pub update_account : UpdateAccountRequest → Handler (Unit {0})
  update_account req = do
    proto_config ← given (ok_or (invalid_argument "config is required") req.config)
    config ← given (map_account_config_from_proto proto_config)
    given (admit config)
    old ← existing config.id
    write_update config req.password

  -- A secret that cannot be deleted is left.
  unfoldable pub remove_account : String → Handler (Unit {0})
  remove_account id = do
    given (reject (str_eq id "") (invalid_argument "id is required"))
    account ← existing id
    on_db show_sqlx "failed to remove account: " (delete_account id)
    λ s. (ok tt, record s { secrets = (delete_secret account.keyring_secret_key s.secrets).1 })

  unfoldable pub test_account_connection :
      (AccountConfig → String → AccountConnectionReport)
      → String
      → Handler TestAccountConnectionResponse
  test_account_connection probe id = do
    given (reject (str_eq id "") (invalid_argument "id is required"))
    config ← existing id
    password ←
        on_vault "failed to read credential from vault: " (get_secret config.keyring_secret_key)
    let report = probe config password
    pure (record {
      imap_ok = report.imap.ok_flag;
      smtp_ok = report.smtp.ok_flag;
      imap_error = report.imap.error;
      smtp_error = report.smtp.error;
    })
