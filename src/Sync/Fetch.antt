-- ===== src/Sync/Fetch.antt =====
-- `fetch_and_persist` and `sync_with_backend` of crates/nunciod/src/sync.rs. Message counts are below
-- 2^64.
use nuncio.Common.{
  ℕ, ◌+◌, String, Bool, List, [], ◌∷◌, Option, none, some, Result, ok, err, if◌then◌else◌, length,
  map_err,
}
use nuncio.Common.Text.{◌⧺◌}
use nuncio.Common.Action.{Action, ◌>>=◌, ◌>>◌, pure}
use nuncio.Core.Model.{Email, Folder}
use nuncio.Core.EventBus.{
  EventBus, CoreCommand, sync_all, sync_account, report_error, sync_progress, process_command,
  publish_event, complete_sync,
}
use nuncio.Filter.Platform.{Platform}
use nuncio.Filter.Engine.{FilterEngine}
use nuncio.Store.Host.{Host}
use nuncio.Store.Database.{Database, Db, SqlxError}
use nuncio.Store.Messages.{save_email, get_folder_sync_state, save_folder_sync_state}
use nuncio.Sync.Backend.{MailBackend, MailError, SyncError, mail, store, show_sync_error}
use nuncio.Sync.Actions.{apply_filter_actions, is_new_message}

-- The database and the event bus that a run works on.
pub record Daemon : Type 0 where
  pub db : Database
  pub bus : EventBus

-- `?` on a call of the database, and on one of the backend.
abbrev pub on_db : {A : Type 0} → Db A → Action Daemon SyncError A
on_db m d = let (r, db) = m d.db in (map_err store r, record d { db = db })

abbrev pub on_mail : {A : Type 0} → Result MailError A → Action Daemon SyncError A
on_mail r d = (map_err mail r, d)

module _ (p : Platform) (host : Host) (backend : MailBackend) (filter_engine : FilterEngine p) where
  -- The filters fire for a message that was not stored before.
  unfoldable pub fire_if_new : Bool → Email → Action Daemon SyncError (Unit {0})
  fire_if_new is_new email d =
      if is_new
      then (ok tt, record d { db = (apply_filter_actions p host filter_engine email d.db).1 })
      else (ok tt, d)

  -- The body of the loop over the messages of a folder.
  unfoldable pub persist_one : Email → Action Daemon SyncError (Unit {0})
  persist_one email = do
    is_new ← λ d.
        let (is_new, db) = is_new_message p host email.id d.db in (ok is_new, record d { db = db })
    on_db (save_email host email)
    fire_if_new is_new email

  unfoldable pub persist_all : List Email → ℕ → Action Daemon SyncError ℕ
  persist_all [] synced = pure synced
  persist_all (email ∷ emails) synced = do persist_one email; persist_all emails (synced + 1)

  unfoldable pub last_state_of : Option String → String → Action Daemon SyncError (Option String)
  last_state_of none folder_id = pure none
  last_state_of (some account) folder_id = on_db (get_folder_sync_state account folder_id)

  unfoldable pub save_state_of :
      Option String → String → String → Action Daemon SyncError (Unit {0})
  save_state_of none folder_id new_state = pure tt
  save_state_of (some account) folder_id new_state =
      on_db (save_folder_sync_state account folder_id new_state)

  -- What follows the fetch of a folder: the messages, then the checkpoint, then the event.
  unfoldable pub land_folder :
      Option String → Folder → ℕ → List Email × String → Action Daemon SyncError ℕ
  land_folder account_id f synced (emails, new_state) = do
    total ← persist_all emails synced
    save_state_of account_id f.id new_state
    λ d. (
      ok total,
      record d {
        bus = (publish_event d.bus (sync_progress account_id f.id (length emails) total)).0;
      },
    )

  -- The body of the loop over the folders.
  unfoldable pub fetch_folder : Option String → Folder → ℕ → Action Daemon SyncError ℕ
  fetch_folder account_id f synced = do
    last_state ← last_state_of account_id f.id
    answer ← on_mail (backend.sync_messages f.id last_state)
    land_folder account_id f synced answer

  unfoldable pub fetch_folders : Option String → List Folder → ℕ → Action Daemon SyncError ℕ
  fetch_folders account_id [] synced = pure synced
  fetch_folders account_id (f ∷ fs) synced = do
    synced ← fetch_folder account_id f synced
    fetch_folders account_id fs synced

  unfoldable pub fetch_and_persist : Option String → Action Daemon SyncError ℕ
  fetch_and_persist account_id = do
    folders ← on_mail backend.sync_folders
    fetch_folders account_id folders 0

  -- The command that opens a run.
  unfoldable pub opening : Option String → CoreCommand
  opening (some id) = sync_account id
  opening none = sync_all

  module _ (show_sqlx : SqlxError → String) where
    unfoldable pub report : Result SyncError ℕ → EventBus → EventBus
    report (ok n) bus = bus
    report (err e) bus =
        process_command bus (report_error ("sync failed: " ⧺ show_sync_error show_sqlx e))

    unfoldable pub sync_with_backend : Option String → Action Daemon SyncError ℕ
    sync_with_backend account_id d =
        let opened = record d { bus = process_command d.bus (opening account_id) } in
        let (result, d) = fetch_and_persist account_id opened in
        (result, record d { bus = (complete_sync (report result d.bus) account_id).0 })
