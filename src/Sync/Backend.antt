-- ===== src/Sync/Backend.antt =====
-- The trait `MailBackend` of crates/nuncio-mail/src/backend.rs with `MailError` of parser.rs, and the
-- errors of crates/nunciod/src/sync.rs with their texts.
use nuncio.Common.{String, List, Option, Result}
use nuncio.Common.Text.{◌⧺◌}
use nuncio.Core.Model.{Email, Folder}
use nuncio.Store.Vault.{VaultError, show_vault_error}
use nuncio.Store.Database.{DatabaseError, SqlxError, show_database_error}

pub data MailError : Type 0 where
  parse_failed smtp_failed authentication_failed transport_failed tls_error imap_error :
      String → MailError
  fetch_stalled network_error auth_error operation_failed : String → MailError

pub data SyncError : Type 0 where
  account_not_found : String → SyncError
  vault : VaultError → SyncError
  mail : MailError → SyncError
  store : DatabaseError → SyncError

-- What the server answers in the course of one run.
pub record MailBackend : Type 0 where
  pub sync_folders : Result MailError (List Folder)
  pub sync_messages :
      (folder_id : String) (since_state : Option String) → Result MailError (List Email × String)

show_mail_error : MailError → String
show_mail_error (parse_failed e) = "failed to parse MIME email payload: " ⧺ e
show_mail_error (smtp_failed e) = "SMTP transport delivery failed: " ⧺ e
show_mail_error (authentication_failed e) = "SMTP authentication failed: " ⧺ e
show_mail_error (transport_failed e) = "SMTP transport connection failed: " ⧺ e
show_mail_error (tls_error e) = "TLS connection failed: " ⧺ e
show_mail_error (imap_error e) = "IMAP error: " ⧺ e
show_mail_error (fetch_stalled e) = "IMAP FETCH stalled: " ⧺ e
show_mail_error (network_error e) = "network I/O error: " ⧺ e
show_mail_error (auth_error e) = "authentication error: " ⧺ e
show_mail_error (operation_failed e) = "operation failed: " ⧺ e

-- `show_sqlx` is the text that sqlx gives its error.
module _ (show_sqlx : SqlxError → String) where
  unfoldable pub show_sync_error : SyncError → String
  unfolding show_mail_error show_vault_error show_database_error
  show_sync_error (account_not_found id) = "account '" ⧺ id ⧺ "' is not configured"
  show_sync_error (vault e) =
      "failed to read account credential from the secret vault: " ⧺ show_vault_error e
  show_sync_error (mail e) = "mail backend error: " ⧺ show_mail_error e
  show_sync_error (store e) = "database error: " ⧺ show_database_error show_sqlx e
