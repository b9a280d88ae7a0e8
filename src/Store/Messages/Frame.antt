-- ===== src/Store/Messages/Frame.antt =====
-- What a property of the database needs in order to hold after the operations on messages and
-- checkpoints of crates/nuncio-store/src/db.rs, whichever of their statements fail.
use nuncio.Common.{ℕ, ◌+◌, String, Bool, List, Option}
use nuncio.Common.Action.{Keeps, >>=-Keeps}
use nuncio.Core.Model.{Email}
use nuncio.Store.Host.{Host}
use nuncio.Store.Database.{Database, SyncStateRow, MessageRow, statement}
use nuncio.Store.Database.Statements.{statement-Keeps, write-Keeps}
use nuncio.Store.Messages.{
  row_of, write_email, save_email, get_message, set_message_read, get_folder_sync_state,
  save_folder_sync_state,
}

module _ (host : Host) (P : Database → Type 0)
    (outcomes_free : (db : Database) (o : List (Option String))
      → P db
      → P (record db { outcomes = o })) where
  started : Keeps P statement
  started = statement-Keeps P outcomes_free

  pub save_email-Keeps :
      (email : Email)
      (randoms_free : (db : Database) (n : ℕ) → P db → P (record db { randoms = n }))
      (written : (before db : Database)
        → P db
        → P (write_email host email (row_of host email before) db))
      → Keeps P (save_email host email)
  unfolding save_email
  save_email-Keeps email randoms_free written db h =
      >>=-Keeps P statement _ started
        (λ a. >>=-Keeps P statement _ started (λ b.
          >>=-Keeps P statement _ started (λ c.
            >>=-Keeps P statement _ started (λ d. write-Keeps P outcomes_free _ (written db)))))
        (record db { randoms = db.randoms + 2 }) (randoms_free db _ h)

  pub get_message-Keeps : (id : String) → Keeps P (get_message host id)
  unfolding get_message
  get_message-Keeps id = >>=-Keeps P statement _ started (λ u db h. h)

  pub get_folder_sync_state-Keeps : (a f : String) → Keeps P (get_folder_sync_state a f)
  unfolding get_folder_sync_state
  get_folder_sync_state-Keeps a f = >>=-Keeps P statement _ started (λ u db h. h)

  pub save_folder_sync_state-Keeps :
      (states_free : (db : Database) (s : List SyncStateRow)
        → P db
        → P (record db { folder_sync_state = s }))
      (a f s : String)
      → Keeps P (save_folder_sync_state a f s)
  unfolding save_folder_sync_state
  save_folder_sync_state-Keeps states_free a f s =
      write-Keeps P outcomes_free _ (λ db. states_free db _)

  pub set_message_read-Keeps :
      (messages_free : (db : Database) (m : List MessageRow)
        → P db
        → P (record db { messages = m }))
      (id : String) (read : Bool)
      → Keeps P (set_message_read id read)
  unfolding set_message_read
  set_message_read-Keeps messages_free id read =
      >>=-Keeps P statement _ started (λ u db h. messages_free db _ h)
