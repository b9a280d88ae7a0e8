-- ===== src/Sync/Frame.antt =====
-- What a property of the database needs in order to hold after every run of
-- crates/nunciod/src/sync.rs.
use nuncio.Common.{
  ℕ, ◌+◌, String, ◌≡◌, refl, List, [], ◌∷◌, Option, none, some, ok, err, Result, All,
}
use nuncio.Common.Action.{Keeps, ◌>>=◌, >>=-Keeps}
use nuncio.Core.Model.{Email, Folder}
use nuncio.Core.EventBus.{process_command}
use nuncio.Filter.Platform.{Platform}
use nuncio.Filter.Engine.{FilterEngine}
use nuncio.Store.Host.{Host}
use nuncio.Store.Database.{Database, Db, SqlxError}
use nuncio.Store.Messages.{get_folder_sync_state, save_folder_sync_state}
use nuncio.Sync.Backend.{MailBackend, MailError}
use nuncio.Sync.Fetch.{
  Daemon, on_db, on_mail, persist_one, persist_all, land_folder, last_state_of, save_state_of,
  fetch_folder, fetch_folders, fetch_and_persist, opening, sync_with_backend,
}

-- The messages that the backend serves have a property.
abbrev pub Serves : MailBackend → (Email → Type 0) → Type 0
Serves backend Q =
    (folder_id : String) (since : Option String) (emails : List Email) (state : String)
    → backend.sync_messages folder_id since ≡ ok (emails, state)
    → All Q emails

module _ (p : Platform) (host : Host) (backend : MailBackend) (filter_engine : FilterEngine p)
    (P : Database → Type 0) (Q : Email → Type 0) where
  -- The property, of the database of a daemon.
  abbrev pub InDb : Daemon → Type 0
  InDb d = P d.db

  pub on_db-Keeps : {A : Type 0} (m : Db A) → Keeps P m → Keeps InDb (on_db m)
  on_db-Keeps m h d q = h d.db q

  module _ (serves : Serves backend Q)
      (persisted : (e : Email) → Q e → Keeps InDb (persist_one p host backend filter_engine e))
      (states_read : (a f : String) → Keeps P (get_folder_sync_state a f))
      (states_written : (a f s : String) → Keeps P (save_folder_sync_state a f s)) where
    pub persist_all-Keeps :
        (emails : List Email) (n : ℕ)
        → All Q emails
        → Keeps InDb (persist_all p host backend filter_engine emails n)
    unfolding persist_all
    persist_all-Keeps [] n q = λ d h. h
    persist_all-Keeps (e ∷ es) n (q, qs) =
        >>=-Keeps InDb (persist_one p host backend filter_engine e) _ (persisted e q)
          (λ u. persist_all-Keeps es (n + 1) qs)

    last_state_of-Keeps :
        (a : Option String) (f : String)
        → Keeps InDb (last_state_of p host backend filter_engine a f)
    unfolding last_state_of
    last_state_of-Keeps none f d h = h
    last_state_of-Keeps (some a) f d h = states_read a f d.db h

    pub save_state_of-Keeps :
        (a : Option String) (f s : String)
        → Keeps InDb (save_state_of p host backend filter_engine a f s)
    unfolding save_state_of
    save_state_of-Keeps none f s d h = h
    save_state_of-Keeps (some a) f s d h = states_written a f s d.db h

    land_folder-Keeps :
        (a : Option String) (f : Folder) (n : ℕ) (emails : List Email) (s : String)
        → All Q emails
        → Keeps InDb (land_folder p host backend filter_engine a f n (emails, s))
    unfolding land_folder
    land_folder-Keeps a f n emails s q =
        >>=-Keeps InDb (persist_all p host backend filter_engine emails n) _
          (persist_all-Keeps emails n q)
          (λ total.
            >>=-Keeps InDb (save_state_of p host backend filter_engine a f.id s) _
              (save_state_of-Keeps a f.id s) (λ u d h. h))

    -- The answer of the backend, which may be an error.
    answered :
        (a : Option String) (f : Folder) (n : ℕ) (since : Option String)
        (r : Result MailError (List Email × String))
        → backend.sync_messages f.id since ≡ r
        → Keeps InDb (on_mail r >>= land_folder p host backend filter_engine a f n)
    answered a f n since (ok (emails, s)) e d h =
        land_folder-Keeps a f n emails s (serves f.id since emails s e) d h
    answered a f n since (err x) e d h = h

    fetch_folder-Keeps :
        (a : Option String) (f : Folder) (n : ℕ)
        → Keeps InDb (fetch_folder p host backend filter_engine a f n)
    unfolding fetch_folder
    fetch_folder-Keeps a f n =
        >>=-Keeps InDb (last_state_of p host backend filter_engine a f.id) _
          (last_state_of-Keeps a f.id)
          (λ since. answered a f n since (backend.sync_messages f.id since) refl)

    pub fetch_folders-Keeps :
        (a : Option String) (fs : List Folder) (n : ℕ)
        → Keeps InDb (fetch_folders p host backend filter_engine a fs n)
    unfolding fetch_folders
    fetch_folders-Keeps a [] n = λ d h. h
    fetch_folders-Keeps a (f ∷ fs) n =
        >>=-Keeps InDb (fetch_folder p host backend filter_engine a f n) _
          (fetch_folder-Keeps a f n) (λ k. fetch_folders-Keeps a fs k)

    pub fetch_and_persist-Keeps :
        (a : Option String) → Keeps InDb (fetch_and_persist p host backend filter_engine a)
    unfolding fetch_and_persist
    fetch_and_persist-Keeps a =
        >>=-Keeps InDb (on_mail backend.sync_folders) _ (λ e k. k)
          (λ fs. fetch_folders-Keeps a fs 0)

    pub sync_with_backend-Keeps :
        (show_sqlx : SqlxError → String) (a : Option String)
        → Keeps InDb (sync_with_backend p host backend filter_engine show_sqlx a)
    unfolding sync_with_backend
    sync_with_backend-Keeps show_sqlx a d h =
        fetch_and_persist-Keeps a
          (record d { bus = process_command d.bus (opening p host backend filter_engine a) }) h
