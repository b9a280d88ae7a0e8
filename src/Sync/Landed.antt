-- ===== src/Sync/Landed.antt =====
-- What a run of crates/nunciod/src/sync.rs that succeeds has stored.
use nuncio.Common.{
  ℕ, ◌+◌, String, ◌≡◌, refl, Bool, true, List, [], ◌∷◌, Option, none, some, ok, err, Result, All,
  All-of, map_err, err≢ok,
}
use nuncio.Common.Action.{
  Action, ◌>>=◌, Keeps, >>=-Keeps, Ensures, Post, Unit-Ensures, Keeps-Ensures, imp-Ensures,
  >>=-Ensures,
}
use nuncio.Core.Model.{Email, Folder}
use nuncio.Filter.Platform.{Platform}
use nuncio.Filter.Engine.{FilterEngine}
use nuncio.Store.Host.{Host}
use nuncio.Store.Database.{Database, Db, DatabaseError, SqlxError, statement}
use nuncio.Store.Database.Statements.{statement-Keeps, write-Keeps}
use nuncio.Store.Messages.{save_email, row_of, is_stored, save_folder_sync_state}
use nuncio.Store.Messages.Frame.{
  save_email-Keeps, get_message-Keeps, get_folder_sync_state-Keeps, save_folder_sync_state-Keeps,
}
use nuncio.Store.Messages.Stored.{write_email-stored, set_message_read-stored, save_email-stored}
use nuncio.Store.Queue.{save_pending_mutation}
use nuncio.Store.Ledger.{save_filter_execution_log}
use nuncio.Sync.Backend.{MailBackend, MailError, SyncError, store}
use nuncio.Sync.Actions.{enqueue_remote, is_new_message}
use nuncio.Sync.Fetch.{
  Daemon, on_db, on_mail, fire_if_new, persist_one, persist_all, last_state_of, save_state_of,
  land_folder, fetch_folder, fetch_folders, fetch_and_persist, sync_with_backend,
}
use nuncio.Sync.Frame.{fetch_folders-Keeps}
use nuncio.Sync.Routing.{fire_if_new-Keeps, persist_one-Keeps}

-- A folder for which the backend answered, from some checkpoint, with messages that are all stored.
abbrev pub Landed : MailBackend → Database → Folder → Type 0
Landed backend db f =
    (since : Option String) × (emails : List Email) × (state : String) × (backend.sync_messages f.id
        since
      ≡ ok (emails, state))
    × All (λ e. is_stored e.id db ≡ true) emails

-- What is kept for each of a list is kept for the list.
All-Keeps :
    {S : Type 0} {E : Type 0} {A : Type 0} {B : Type 0} (P : B → S → Type 0) (m : Action S E A)
    → ((b : B) → Keeps (P b) m)
    → (bs : List B) → Keeps (λ s. All (λ b. P b s) bs) m
All-Keeps P m k [] s h = tt
All-Keeps P m k (b ∷ bs) s (h, hs) = (k b s h, All-Keeps P m k bs s hs)

on_db-Ensures :
    {A : Type 0} (P : Database → Type 0) (m : Db A) (Q : A → Database → Type 0)
    → Ensures P m Q
    → Ensures (λ d. P d.db) (on_db m) (λ a d. Q a d.db)
on_db-Ensures P m Q h d p = lifted (m d.db) (h d.db p)
  where
    lifted :
        (o : Result DatabaseError _ × Database)
        → Post Q o
        → Post (λ a e. Q a e.db) (map_err store (o.0), record d { db = o.1 })
    lifted (ok a, t) q = q
    lifted (err x, t) q = tt

module _ (p : Platform) (host : Host) where
  module _ (i : String) where
    abbrev Has : Database → Type 0
    Has db = is_stored i db ≡ true

    outcomes_free :
        (db : Database) (o : List (Option String)) → Has db → Has (record db { outcomes = o })
    unfolding is_stored
    outcomes_free db o h = h

    enqueue_remote-Has :
        (rule_id message_id : String) (t : Option (String × Option String))
        → Keeps Has (enqueue_remote p host rule_id message_id t)
    unfolding enqueue_remote save_pending_mutation is_stored
    enqueue_remote-Has rule_id message_id none db h = h
    enqueue_remote-Has rule_id message_id (some (tag, target)) db h =
        write-Keeps Has outcomes_free _ (λ db h. h) (record db { ticks = db.ticks + 2 }) h

    save_filter_execution_log-Has :
        (rule_id message_id action_taken : String)
        → Keeps Has (save_filter_execution_log host rule_id message_id action_taken)
    unfolding save_filter_execution_log is_stored
    save_filter_execution_log-Has rule_id message_id action_taken =
        >>=-Keeps Has statement _ (statement-Keeps Has outcomes_free) (λ u db h.
          >>=-Keeps Has statement _ (statement-Keeps Has outcomes_free) (λ v db h. h)
            (record db { ticks = db.ticks + 1 }) h)

    save_email-Has : (e : Email) → Keeps Has (save_email host e)
    unfolding is_stored
    save_email-Has e =
        save_email-Keeps host Has outcomes_free e (λ db n h. h)
          (λ before db. write_email-stored host i e (row_of host e before) db)

    module _ (backend : MailBackend) (filter_engine : FilterEngine p) where
      fire_if_new-Has :
          (b : Bool) (e : Email)
          → Keeps (λ d. Has d.db) (fire_if_new p host backend filter_engine b e)
      fire_if_new-Has b e =
          fire_if_new-Keeps p host Has (λ j. Unit {0})
            (λ j read u. set_message_read-stored host i j read) enqueue_remote-Has
            save_filter_execution_log-Has backend filter_engine b e tt

      persist_one-Has :
          (e : Email) → Keeps (λ d. Has d.db) (persist_one p host backend filter_engine e)
      persist_one-Has e =
          persist_one-Keeps p host Has (λ j. Unit {0})
            (λ j read u. set_message_read-stored host i j read) enqueue_remote-Has
            save_filter_execution_log-Has backend filter_engine save_email-Has
            (get_message-Keeps host Has outcomes_free) e tt

      save_state-Has : (a f s : String) → Keeps Has (save_folder_sync_state a f s)
      unfolding is_stored
      save_state-Has = save_folder_sync_state-Keeps host Has outcomes_free (λ db s h. h)

  module _ (backend : MailBackend) (filter_engine : FilterEngine p) where
    abbrev Anything : Daemon → Type 0
    Anything d = Unit

    -- The messages are stored.
    abbrev AllStored : List Email → Daemon → Type 0
    AllStored es d = All (λ e. is_stored e.id d.db ≡ true) es

    persist_one-Ensures :
        (e : Email)
        → Ensures Anything
            (persist_one p host backend filter_engine e)
            (λ u d. is_stored e.id d.db ≡ true)
    unfolding persist_one
    persist_one-Ensures e d h =
        >>=-Ensures Anything (on_db (save_email host e)) (λ u d. is_stored e.id d.db ≡ true) _ _
          (on_db-Ensures (λ db. Unit) (save_email host e) (λ u db. is_stored e.id db ≡ true)
            (save_email-stored host e))
          (λ u d s.
            imp-Ensures (λ d. is_stored e.id d.db ≡ true)
              (fire_if_new p host backend filter_engine _ e)
              (λ u d. (is_stored e.id d.db ≡ true) × Unit) (λ u d. is_stored e.id d.db ≡ true)
              (λ a s q. q.0)
              (Keeps-Ensures (λ d. is_stored e.id d.db ≡ true)
                (fire_if_new p host backend filter_engine _ e) (λ u d. Unit)
                (fire_if_new-Has e.id backend filter_engine _ e)
                (Unit-Ensures (λ d. is_stored e.id d.db ≡ true)
                  (fire_if_new p host backend filter_engine _ e)))
              d s)
          (record d { db = (is_new_message p host e.id d.db).1 }) tt

    persist_all-Has :
        (i : String) (es : List Email) (n : ℕ)
        → Keeps (λ d. is_stored i d.db ≡ true) (persist_all p host backend filter_engine es n)
    unfolding persist_all
    persist_all-Has i [] n = λ d h. h
    persist_all-Has i (e ∷ es) n =
        >>=-Keeps (λ d. is_stored i d.db ≡ true) (persist_one p host backend filter_engine e) _
          (persist_one-Has i backend filter_engine e) (λ u. persist_all-Has i es (n + 1))

    persist_all-Ensures :
        (es : List Email) (n : ℕ)
        → Ensures Anything (persist_all p host backend filter_engine es n) (λ m. AllStored es)
    unfolding persist_all
    persist_all-Ensures [] n = λ d h. tt
    persist_all-Ensures (e ∷ es) n =
        >>=-Ensures Anything (persist_one p host backend filter_engine e)
          (λ u d. is_stored e.id d.db ≡ true) _ _ (persist_one-Ensures e)
          (λ u.
            Keeps-Ensures (λ d. is_stored e.id d.db ≡ true)
              (persist_all p host backend filter_engine es (n + 1)) (λ m. AllStored es)
              (persist_all-Has e.id es (n + 1)) (λ d s. persist_all-Ensures es (n + 1) d tt))

    save_state_of-Has :
        (a : Option String) (f s i : String)
        → Keeps (λ d. is_stored i d.db ≡ true) (save_state_of p host backend filter_engine a f s)
    unfolding save_state_of
    save_state_of-Has none f s i d h = h
    save_state_of-Has (some a) f s i d h = save_state-Has i backend filter_engine a f s d.db h

    land_folder-Ensures :
        (a : Option String) (f : Folder) (n : ℕ) (es : List Email) (s : String)
        → Ensures Anything
            (land_folder p host backend filter_engine a f n (es, s))
            (λ m. AllStored es)
    unfolding land_folder
    land_folder-Ensures a f n es s =
        >>=-Ensures Anything (persist_all p host backend filter_engine es n) (λ m. AllStored es) _ _
          (persist_all-Ensures es n)
          (λ total.
            >>=-Ensures (AllStored es) (save_state_of p host backend filter_engine a f.id s)
              (λ u d. AllStored es d × Unit) _ _
              (Keeps-Ensures (AllStored es) (save_state_of p host backend filter_engine a f.id s)
                (λ u d. Unit)
                (All-Keeps (λ e d. is_stored e.id d.db ≡ true)
                  (save_state_of p host backend filter_engine a f.id s)
                  (λ e. save_state_of-Has a f.id s e.id) es)
                (Unit-Ensures (AllStored es) (save_state_of p host backend filter_engine a f.id s)))
              (λ u d q. q.0))

    -- The answer of the backend, which may be an error.
    answered :
        (a : Option String) (f : Folder) (n : ℕ) (since : Option String)
        (r : Result MailError (List Email × String))
        → backend.sync_messages f.id since ≡ r
        → Ensures Anything
            (on_mail r >>= land_folder p host backend filter_engine a f n)
            (λ m d. Landed backend d.db f)
    answered a f n since (ok (es, s)) e =
        imp-Ensures Anything (land_folder p host backend filter_engine a f n (es, s))
          (λ m. AllStored es) (λ m d. Landed backend d.db f) (λ m d q. (since, es, s, e, q))
          (land_folder-Ensures a f n es s)
    answered a f n since (err x) e = λ d h. tt

    fetch_folder-Ensures :
        (a : Option String) (f : Folder) (n : ℕ)
        → Ensures Anything
            (fetch_folder p host backend filter_engine a f n)
            (λ m d. Landed backend d.db f)
    unfolding fetch_folder
    fetch_folder-Ensures a f n =
        >>=-Ensures Anything (last_state_of p host backend filter_engine a f.id) (λ u. Anything) _ _
          (Unit-Ensures Anything (last_state_of p host backend filter_engine a f.id))
          (λ since. answered a f n since (backend.sync_messages f.id since) refl)

    -- A folder that has landed stays so.
    fetch_folders-Landed :
        (a : Option String) (fs : List Folder) (n : ℕ) (f : Folder)
        → Keeps (λ d. Landed backend d.db f) (fetch_folders p host backend filter_engine a fs n)
    unfolding is_stored
    fetch_folders-Landed a fs n f d (since, es, s, e, q) = (
      since,
      es,
      s,
      e,
      All-Keeps (λ e d. is_stored e.id d.db ≡ true)
          (fetch_folders p host backend filter_engine a fs n)
          (λ m.
            fetch_folders-Keeps p host backend filter_engine (λ db. is_stored m.id db ≡ true)
              (λ e. Unit {0}) (λ f s es st e. All-of (λ m. Unit {0}) (λ m. tt) es)
              (λ e q. persist_one-Has m.id backend filter_engine e)
              (get_folder_sync_state-Keeps host (λ db. is_stored m.id db ≡ true) (λ db o h. h))
              (save_state-Has m.id backend filter_engine) a fs n)
          es d q,
    )

    fetch_folders-Ensures :
        (a : Option String) (fs : List Folder) (n : ℕ)
        → Ensures Anything
            (fetch_folders p host backend filter_engine a fs n)
            (λ m d. All (Landed backend d.db) fs)
    unfolding fetch_folders
    fetch_folders-Ensures a [] n = λ d h. tt
    fetch_folders-Ensures a (f ∷ fs) n =
        >>=-Ensures Anything (fetch_folder p host backend filter_engine a f n)
          (λ m d. Landed backend d.db f) _ _ (fetch_folder-Ensures a f n)
          (λ k.
            Keeps-Ensures (λ d. Landed backend d.db f)
              (fetch_folders p host backend filter_engine a fs k)
              (λ m d. All (Landed backend d.db) fs) (fetch_folders-Landed a fs k f)
              (λ d q. fetch_folders-Ensures a fs k d tt))

    -- The list of folders, which may be an error.
    listed :
        (a : Option String) (r : Result MailError (List Folder))
        → backend.sync_folders ≡ r
        → Ensures Anything
            (on_mail r >>= λ fs. fetch_folders p host backend filter_engine a fs 0)
            (λ m d.
              (fs : List Folder) × (backend.sync_folders ≡ ok fs) × All (Landed backend d.db) fs)
    listed a (ok fs) e =
        imp-Ensures Anything (fetch_folders p host backend filter_engine a fs 0)
          (λ m d. All (Landed backend d.db) fs) _ (λ m d q. (fs, e, q))
          (fetch_folders-Ensures a fs 0)
    listed a (err x) e = λ d h. tt

    -- A run that succeeds has listed the folders, and for every one of them there is a checkpoint for
    -- which the backend answered with messages that are all stored when the run ends.
    pub sync_with_backend_stores :
        (show_sqlx : SqlxError → String) (account_id : Option String) (d : Daemon) (synced : ℕ)
        → (sync_with_backend p host backend filter_engine show_sqlx account_id d).0 ≡ ok synced
        → (fs : List Folder) × (backend.sync_folders ≡ ok fs)
          × All
              (Landed backend
                ((sync_with_backend p host backend filter_engine show_sqlx account_id d).1.db))
              fs
    unfolding sync_with_backend fetch_and_persist
    sync_with_backend_stores show_sqlx account_id d synced succeeded =
        posted _ (listed account_id backend.sync_folders refl _ tt) succeeded
      where
        posted :
            (o : Result SyncError ℕ × Daemon)
            → Post
                (λ m d.
                  (fs : List Folder) × (backend.sync_folders ≡ ok fs)
                  × All (Landed backend d.db) fs)
                o
            → o.0 ≡ ok synced
            → (fs : List Folder) × (backend.sync_folders ≡ ok fs) × All (Landed backend o.1.db) fs
        posted (ok m, d) q e = q
        posted (err x, d) q e = absurd (err≢ok e)
