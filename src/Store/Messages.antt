-- ===== src/Store/Messages.antt =====
-- The messages and checkpoints of crates/nuncio-store/src/db.rs: `save_email`, `get_message`,
-- `set_message_read`, and `get_folder_sync_state`, `save_folder_sync_state`.
pub mod Frame
pub mod Stored
pub mod Flagged
use nuncio.Common.{
  ℕ, ◌+◌, String, Bool, true, false, not, ◌&&◌, List, [], ◌∷◌, ◌++◌, map, Option, none, some,
  Result, ok, err, if◌then◌else◌, str_eq, keep, find, any, ◌==◌,
}
use mathlib.Core.Option
use nuncio.Common.Action.{Action, ◌>>=◌, ◌>>◌, pure, fail}
use nuncio.Core.Model.{Email}
use nuncio.Store.Host.{Host}
use nuncio.Store.Cipher.{encrypt_text_at_rest, decrypt_text_at_rest}
use nuncio.Store.Database.{
  Database, Db, DatabaseError, query, row_not_found, MessageRow, IndexRow, SyncStateRow, statement,
  select, modify,
}

-- `INSERT OR REPLACE` on the primary key: an old row is deleted, the new one comes last.
unfoldable pub replace_message : MessageRow → List MessageRow → List MessageRow
replace_message row rows = keep (λ r. not (str_eq r.id row.id)) rows ++ row ∷ []

replace_index : IndexRow → List IndexRow → List IndexRow
replace_index row rows = keep (λ r. not (str_eq r.id row.id)) rows ++ row ∷ []

-- `as_deref().unwrap_or("")`
or_blank : Option String → String
or_blank (some s) = s
or_blank none = ""

module _ (host : Host) where
  -- The row of a message; each body is encrypted under a nonce of its own.
  unfoldable pub row_of : Email → Database → MessageRow
  row_of email db = record {
    id = email.id;
    account_id = email.account_id;
    folder_id = email.folder_id;
    subject = email.subject;
    sender = email.sender;
    recipient = email.recipient;
    received_at = email.received_at;
    read_flag = if email.read then 1 else 0;
    body_plain =
        Option.map (encrypt_text_at_rest host db.storage_key (host.random db.randoms))
          email.body_plain;
    body_html =
        Option.map (encrypt_text_at_rest host db.storage_key (host.random (db.randoms + 1)))
          email.body_html;
  }

  -- The effect of the committed transaction.
  unfoldable pub write_email : Email → MessageRow → Database → Database
  unfolding replace_index or_blank
  write_email email row db = record db {
    messages = replace_message row db.messages;
    messages_fts =
        replace_index
          (record {
            id = email.id;
            subject = email.subject;
            sender = email.sender;
            body_plain = or_blank email.body_plain;
          })
          db.messages_fts;
  }

  -- The transaction is begin, three statements and commit: unless all succeed it is rolled back.
  unfoldable pub save_email : Email → Db (Unit {0})
  save_email email = do
    row ← select (row_of email)
    modify (λ db. record db { randoms = db.randoms + 2 })
    statement
    statement
    statement
    statement
    statement
    modify (write_email email row)

  unfoldable pub email_of : Database → MessageRow → Email
  email_of db row = record {
    id = row.id;
    account_id = row.account_id;
    folder_id = row.folder_id;
    subject = row.subject;
    sender = row.sender;
    recipient = row.recipient;
    received_at = row.received_at;
    read = not (row.read_flag == 0);
    body_plain = Option.map (decrypt_text_at_rest host db.storage_key) row.body_plain;
    body_html = Option.map (decrypt_text_at_rest host db.storage_key) row.body_html;
    attachments = [];
  }

  -- `fetch_one`
  fetched : String → Database → Result DatabaseError Email
  fetched message_id db = elim (find (λ r. str_eq r.id message_id) db.messages) [
    | none ↦ err (query row_not_found)
    | some row ↦ ok (email_of db row)
  ]

  unfoldable pub get_message : String → Db Email
  unfolding fetched
  get_message message_id = do statement; λ db. (fetched message_id db, db)

-- `rows_affected() == 0`
unfoldable pub is_stored : String → Database → Bool
is_stored message_id db = any (λ r. str_eq r.id message_id) db.messages

flag_row : String → Bool → MessageRow → MessageRow
flag_row message_id read row =
    if str_eq row.id message_id then record row { read_flag = if read then 1 else 0 } else row

unfoldable pub set_message_read : String → Bool → Db (Unit {0})
unfolding flag_row
set_message_read message_id read = do
  statement
  modify (λ db. record db { messages = map (flag_row message_id read) db.messages })
  λ db. (if is_stored message_id db then ok tt else err (query row_not_found), db)

same_key : String → String → SyncStateRow → Bool
same_key account_id folder_id row =
    str_eq row.account_id account_id && str_eq row.folder_id folder_id

unfoldable pub get_folder_sync_state : String → String → Db (Option String)
unfolding same_key
get_folder_sync_state account_id folder_id = do
  statement
  select
      (λ db. Option.map (λ r. r.state) (find (same_key account_id folder_id) db.folder_sync_state))

unfoldable pub save_folder_sync_state : String → String → String → Db (Unit {0})
unfolding same_key
save_folder_sync_state account_id folder_id state = do
  statement
  modify (λ db. record db {
    folder_sync_state =
        keep (λ r. not (same_key account_id folder_id r)) db.folder_sync_state
        ++ record { account_id = account_id; folder_id = folder_id; state = state } ∷ [];
  })
