-- ===== src/Store/Accounts.antt =====
-- The account table of crates/nuncio-store/src/db.rs: `save_account`, `list_accounts`, `get_account`
-- and `delete_account`.
pub mod RoundTrip
pub mod Cases
use nuncio.Common.{
  ℕ, ◌-◌, ◌%◌, ◌^◌, String, Bool, true, false, not, List, [], ◌∷◌, ◌++◌, map, Option, none, some,
  if◌then◌else◌, str_eq, keep, find, ltb,
}
use nuncio.Common.Int.{ℤ, pos, negsuc, eq_ℤ}
use nuncio.Common.Action.{Action, ◌>>=◌, ◌>>◌}
use nuncio.Core.Config.{
  AccountConfig, AccountProtocol, imap_smtp, TlsMode, implicit_tls, start_tls, plain,
}
use nuncio.Store.Host.{Host}
use nuncio.Store.Database.{Database, Db, AccountRow, statement, select, modify}

unfoldable pub tls_mode_to_db : TlsMode → String
tls_mode_to_db implicit_tls = "implicit_tls"
tls_mode_to_db start_tls = "start_tls"
tls_mode_to_db plain = "plain"

unfoldable pub tls_mode_from_db : String → TlsMode
tls_mode_from_db value =
    if str_eq value "start_tls"
    then start_tls
    else if str_eq value "plain"
    then plain
    else implicit_tls

-- `u64 as i64`, `i64 as u64` and `i64 as u16`
unfoldable pub as_i64 : ℕ → ℤ
as_i64 n = if ltb n (2 ^ 63) then pos n else negsuc (2 ^ 64 - 1 - n)

unfoldable pub as_u64 : ℤ → ℕ
as_u64 (pos n) = n % 2 ^ 64
as_u64 (negsuc n) = 2 ^ 64 - 1 - n % 2 ^ 64

unfoldable pub as_u16 : ℤ → ℕ
as_u16 (pos n) = n % 2 ^ 16
as_u16 (negsuc n) = 2 ^ 16 - 1 - n % 2 ^ 16

-- `unwrap_or` and its kin
or_else : {A : Type 0} → Option A → A → A
or_else (some a) b = a
or_else none b = b

module _ (host : Host) where
  unfoldable pub account_row : AccountConfig → AccountRow
  account_row config = record {
    id = config.id;
    name = config.name;
    email_address = config.email_address;
    protocol = host.protocol_json config.protocol;
    server_host = config.server_host;
    server_port = pos config.server_port;
    use_tls = if config.use_tls then pos 1 else pos 0;
    keyring_secret_key = config.keyring_secret_key;
    sync_interval_secs = as_i64 config.sync_interval_secs;
    smtp_host = some config.smtp_host;
    smtp_port = some (pos config.smtp_port);
    imap_tls_mode = tls_mode_to_db config.imap_tls_mode;
    smtp_tls_mode = tls_mode_to_db config.smtp_tls_mode;
  }

  -- The port of a row that was written before the SMTP columns is the server's.
  resolved_port : Option ℤ → ℤ → ℕ
  resolved_port (some p) server_port = as_u16 p
  resolved_port none server_port = as_u16 server_port

  unfoldable pub account_of : AccountRow → AccountConfig
  unfolding or_else resolved_port
  account_of row = record {
    id = row.id;
    name = row.name;
    email_address = row.email_address;
    protocol = or_else (host.protocol_from_json row.protocol) imap_smtp;
    server_host = row.server_host;
    server_port = as_u16 row.server_port;
    smtp_host = or_else row.smtp_host row.server_host;
    smtp_port = resolved_port row.smtp_port row.server_port;
    use_tls = not (eq_ℤ row.use_tls (pos 0));
    imap_tls_mode = tls_mode_from_db row.imap_tls_mode;
    smtp_tls_mode = tls_mode_from_db row.smtp_tls_mode;
    keyring_secret_key = row.keyring_secret_key;
    sync_interval_secs = as_u64 row.sync_interval_secs;
  }

  unfoldable pub save_account : AccountConfig → Db (Unit {0})
  save_account config = do
    statement
    modify (λ db. record db {
      accounts = keep (λ r. not (str_eq r.id config.id)) db.accounts ++ account_row config ∷ [];
    })

  unfoldable pub list_accounts : Db (List AccountConfig)
  list_accounts = do statement; select (λ db. map account_of db.accounts)

  unfoldable pub get_account : String → Db (Option AccountConfig)
  get_account id = do accounts ← list_accounts; select (λ db. find (λ a. str_eq a.id id) accounts)

unfoldable pub delete_account : String → Db (Unit {0})
delete_account id = do
  statement
  modify (λ db. record db { accounts = keep (λ r. not (str_eq r.id id)) db.accounts })
