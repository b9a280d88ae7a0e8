-- ===== src/Sync/Resync.antt =====
-- A sync of crates/nunciod/src/sync.rs that meets only messages it has seen.
use nuncio.Common.{String, ◌≡◌, refl, Bool, true, false, List, Option, inl, inr}
use nuncio.Common.Action.{Keeps, >>=-Keeps}
use nuncio.Core.Model.{Email}
use nuncio.Filter.Platform.{Platform}
use nuncio.Filter.Engine.{FilterEngine}
use nuncio.Store.Host.{Host}
use nuncio.Store.Database.{Database, SqlxError, is_not_found}
use nuncio.Store.Messages.{save_email, get_message, write_email, row_of, is_stored}
use nuncio.Store.Messages.Frame.{
  save_email-Keeps, get_message-Keeps, get_folder_sync_state-Keeps, save_folder_sync_state-Keeps,
}
use nuncio.Store.Messages.Stored.{write_email-stored, get_message-stored}
use nuncio.Sync.Backend.{MailBackend}
use nuncio.Sync.Actions.{judge_new, is_new_message}
use nuncio.Sync.Fetch.{Daemon, on_db, fire_if_new, persist_one, sync_with_backend}
use nuncio.Sync.Frame.{Serves, sync_with_backend-Keeps}

module _ (p : Platform) (host : Host) where
  -- A stored message is never taken for a new one, even when the lookup fails.
  is_new_message-stored :
      (id : String) (db : Database)
      → is_stored id db ≡ true
      → (is_new_message p host id db).0 ≡ false
  unfolding is_new_message judge_new is_not_found
  is_new_message-stored id db h = elim (get_message-stored host id db h) [
    | inl (email, e) ↦ rw e
    | inr (reason, e) ↦ rw e
  ]

  module _ (start : Database) where
    -- The outbox and the ledger are as at the start, and no message of the start is lost.
    abbrev IsQuiet : Database → Type 0
    IsQuiet db =
        (db.pending_remote_mutations ≡ start.pending_remote_mutations)
        × (db.filter_execution_logs ≡ start.filter_execution_logs)
        × ((i : String) → is_stored i start ≡ true → is_stored i db ≡ true)

    outcomes_free :
        (db : Database) (o : List (Option String))
        → IsQuiet db
        → IsQuiet (record db { outcomes = o })
    unfolding is_stored
    outcomes_free db o (a, b, c) = (a, b, c)

    save_email-IsQuiet : (e : Email) → Keeps IsQuiet (save_email host e)
    unfolding write_email is_stored
    save_email-IsQuiet e =
        save_email-Keeps host IsQuiet outcomes_free e (λ db n q. q)
          (λ before db (a, b, c).
            (a, b, λ i h. write_email-stored host i e (row_of host e before) db (c i h)))

    module _ (backend : MailBackend) (filter_engine : FilterEngine p) where
      abbrev IsQuietDaemon : Daemon → Type 0
      IsQuietDaemon d = IsQuiet d.db

      not_fired :
          (b : Bool) (e : Email)
          → b ≡ false
          → Keeps IsQuietDaemon (fire_if_new p host backend filter_engine b e)
      unfolding fire_if_new
      not_fired true e h = cc h
      not_fired false e h = λ d q. q

      persist_one-IsQuiet :
          (e : Email)
          → is_stored e.id start ≡ true
          → Keeps IsQuietDaemon (persist_one p host backend filter_engine e)
      unfolding persist_one is_new_message
      persist_one-IsQuiet e s d (a, b, c) =
          >>=-Keeps IsQuietDaemon (on_db (save_email host e)) _ (λ d q. save_email-IsQuiet e d.db q)
            (λ u. not_fired _ e (is_new_message-stored e.id d.db (c e.id s)))
            (record d { db = (get_message host e.id d.db).1 })
            (get_message-Keeps host IsQuiet outcomes_free e.id d.db (a, b, c))

      run_quiet :
          Serves backend (λ e. is_stored e.id start ≡ true)
          → (show_sqlx : SqlxError → String) (account_id : Option String)
          → Keeps IsQuietDaemon
              (sync_with_backend p host backend filter_engine show_sqlx account_id)
      unfolding is_stored
      run_quiet serves show_sqlx account_id =
          sync_with_backend-Keeps p host backend filter_engine IsQuiet
            (λ e. is_stored e.id start ≡ true) serves persist_one-IsQuiet
            (get_folder_sync_state-Keeps host IsQuiet outcomes_free)
            (save_folder_sync_state-Keeps host IsQuiet outcomes_free (λ db s q. q)) show_sqlx
            account_id

  -- When every message that the backend serves is stored already, a run leaves the outbox and the
  -- execution ledger as they were and loses no message, whichever statements of the database fail.
  pub resync_quiet :
      (backend : MailBackend) (filter_engine : FilterEngine p) (show_sqlx : SqlxError → String)
      (account_id : Option String) (d : Daemon)
      → Serves backend (λ e. is_stored e.id d.db ≡ true)
      → ((sync_with_backend p host backend filter_engine show_sqlx account_id
            d).1.db.pending_remote_mutations
          ≡ d.db.pending_remote_mutations)
        × ((sync_with_backend p host backend filter_engine show_sqlx account_id
              d).1.db.filter_execution_logs
            ≡ d.db.filter_execution_logs)
        × ((i : String)
            → is_stored i d.db ≡ true
            → is_stored i
                ((sync_with_backend p host backend filter_engine show_sqlx account_id d).1.db)
              ≡ true)
  resync_quiet backend filter_engine show_sqlx account_id d serves =
      run_quiet d.db backend filter_engine serves show_sqlx account_id d (refl, refl, λ i h. h)
