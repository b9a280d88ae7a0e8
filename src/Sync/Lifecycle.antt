-- ===== src/Sync/Lifecycle.antt =====
-- The events and the status of a run of `sync_with_backend` of crates/nunciod/src/sync.rs.
use nuncio.Common.{
  ℕ, ◌+◌, String, ◌≡◌, refl, sym, Bool, true, false, List, [], ◌∷◌, ◌++◌, Option, none, some, ok,
  err, Result, All, All-append,
}
use mathlib.Core.List.{append-nil, append_assoc}
use nuncio.Common.Action.{Keeps, >>=-Keeps}
use nuncio.Common.Text.{◌⧺◌}
use nuncio.Core.Model.{Email, Folder}
use nuncio.Core.EventBus.{
  EventBus, CoreEvent, sync_started, sync_completed, sync_progress, error, idle, process_command,
  publish_event, complete_sync,
}
use nuncio.Filter.Platform.{Platform}
use nuncio.Filter.Engine.{FilterEngine}
use nuncio.Store.Host.{Host}
use nuncio.Store.Database.{Db, SqlxError}
use nuncio.Store.Messages.{save_email}
use nuncio.Sync.Backend.{MailBackend, SyncError, show_sync_error}
use nuncio.Sync.Actions.{is_new_message}
use nuncio.Sync.Fetch.{
  Daemon, on_db, on_mail, fire_if_new, persist_one, persist_all, last_state_of, save_state_of,
  land_folder, fetch_folder, fetch_folders, fetch_and_persist, opening, report, sync_with_backend,
}

-- A progress event of the account.
abbrev pub IsProgress : Option String → CoreEvent → Type 0
IsProgress account_id e =
    (folder_id : String) × (fetched : ℕ) × (total : ℕ) × (e
      ≡ sync_progress account_id folder_id fetched total)

-- The event of a failure, if there was one.
abbrev pub failure_events : (SqlxError → String) → Result SyncError ℕ → List CoreEvent
failure_events show_sqlx (ok n) = []
failure_events show_sqlx (err e) = error ("sync failed: " ⧺ show_sync_error show_sqlx e) ∷ []

module _ (p : Platform) (host : Host) (backend : MailBackend) (filter_engine : FilterEngine p)
    (account_id : Option String) (start : EventBus) where
  -- Since the start only progress was published.
  abbrev IsUnderWay : Daemon → Type 0
  IsUnderWay d =
      (events : List CoreEvent) × (d.bus.published ≡ start.published ++ events)
      × All (IsProgress account_id) events

  on_db-IsUnderWay : {A : Type 0} (m : Db A) → Keeps IsUnderWay (on_db m)
  on_db-IsUnderWay m d h = h

  fire_if_new-IsUnderWay :
      (b : Bool) (e : Email) → Keeps IsUnderWay (fire_if_new p host backend filter_engine b e)
  unfolding fire_if_new
  fire_if_new-IsUnderWay true e d h = h
  fire_if_new-IsUnderWay false e d h = h

  persist_one-IsUnderWay :
      (e : Email) → Keeps IsUnderWay (persist_one p host backend filter_engine e)
  unfolding persist_one
  persist_one-IsUnderWay e d h =
      >>=-Keeps IsUnderWay (on_db (save_email host e)) _ (λ d h. h)
        (λ u. fire_if_new-IsUnderWay (is_new_message p host e.id d.db).0 e)
        (record d { db = (is_new_message p host e.id d.db).1 }) h

  persist_all-IsUnderWay :
      (es : List Email) (n : ℕ) → Keeps IsUnderWay (persist_all p host backend filter_engine es n)
  unfolding persist_all
  persist_all-IsUnderWay [] n = λ d h. h
  persist_all-IsUnderWay (e ∷ es) n =
      >>=-Keeps IsUnderWay (persist_one p host backend filter_engine e) _ (persist_one-IsUnderWay e)
        (λ u. persist_all-IsUnderWay es (n + 1))

  last_state_of-IsUnderWay :
      (a : Option String) (f : String)
      → Keeps IsUnderWay (last_state_of p host backend filter_engine a f)
  unfolding last_state_of
  last_state_of-IsUnderWay none f d h = h
  last_state_of-IsUnderWay (some a) f d h = h

  save_state_of-IsUnderWay :
      (a : Option String) (f s : String)
      → Keeps IsUnderWay (save_state_of p host backend filter_engine a f s)
  unfolding save_state_of
  save_state_of-IsUnderWay none f s d h = h
  save_state_of-IsUnderWay (some a) f s d h = h

  published_progress :
      (f : String) (fetched total : ℕ) (d : Daemon)
      → IsUnderWay d
      → IsUnderWay
          (record d { bus = (publish_event d.bus (sync_progress account_id f fetched total)).0 })
  unfolding publish_event
  published_progress f fetched total d (events, e, all) = (
    events ++ sync_progress account_id f fetched total ∷ [],
    rw (e, append_assoc),
    All-append (IsProgress account_id) events _ all ((f, fetched, total, refl), tt),
  )

  land_folder-IsUnderWay :
      (f : Folder) (n : ℕ) (answer : List Email × String)
      → Keeps IsUnderWay (land_folder p host backend filter_engine account_id f n answer)
  unfolding land_folder
  land_folder-IsUnderWay f n (emails, s) =
      >>=-Keeps IsUnderWay (persist_all p host backend filter_engine emails n) _
        (persist_all-IsUnderWay emails n)
        (λ total.
          >>=-Keeps IsUnderWay (save_state_of p host backend filter_engine account_id f.id s) _
            (save_state_of-IsUnderWay account_id f.id s) (λ u. published_progress f.id _ total))

  fetch_folders-IsUnderWay :
      (fs : List Folder) (n : ℕ)
      → Keeps IsUnderWay (fetch_folders p host backend filter_engine account_id fs n)
  unfolding fetch_folders fetch_folder
  fetch_folders-IsUnderWay [] n = λ d h. h
  fetch_folders-IsUnderWay (f ∷ fs) n =
      >>=-Keeps IsUnderWay (fetch_folder p host backend filter_engine account_id f n) _
        (>>=-Keeps IsUnderWay (last_state_of p host backend filter_engine account_id f.id) _
          (last_state_of-IsUnderWay account_id f.id)
          (λ since.
            >>=-Keeps IsUnderWay (on_mail (backend.sync_messages f.id since)) _ (λ d h. h)
              (λ answer. land_folder-IsUnderWay f n answer)))
        (λ k. fetch_folders-IsUnderWay fs k)

  pub fetch_and_persist-IsUnderWay :
      Keeps IsUnderWay (fetch_and_persist p host backend filter_engine account_id)
  unfolding fetch_and_persist
  fetch_and_persist-IsUnderWay =
      >>=-Keeps IsUnderWay (on_mail backend.sync_folders) _ (λ d h. h)
        (λ fs. fetch_folders-IsUnderWay fs 0)

  -- What the failure report publishes, after anything.
  report-published :
      (show_sqlx : SqlxError → String) (r : Result SyncError ℕ) (bus : EventBus)
      → (report p host backend filter_engine show_sqlx r bus).published
        ≡ bus.published ++ failure_events show_sqlx r
  unfolding report process_command
  report-published show_sqlx (ok n) bus = sym (append-nil bus.published)
  report-published show_sqlx (err e) bus = refl

opening-published :
    (p : Platform) (host : Host) (backend : MailBackend) (filter_engine : FilterEngine p)
    (account_id : Option String) (bus : EventBus)
    → (process_command bus (opening p host backend filter_engine account_id)).published
      ≡ bus.published ++ sync_started account_id ∷ []
unfolding opening process_command
opening-published p host backend filter_engine none bus = refl
opening-published p host backend filter_engine (some id) bus = refl

-- A run publishes that the sync started, then only progress events of its account, then an error
-- with its text if it failed, then that the sync completed; it leaves the engine idle, also when it
-- failed.
pub sync_with_backend_lem :
    (p : Platform) (host : Host) (backend : MailBackend) (filter_engine : FilterEngine p)
    (show_sqlx : SqlxError → String) (account_id : Option String) (d : Daemon)
    → (progress : List CoreEvent) × All (IsProgress account_id) progress
      × ((sync_with_backend p host backend filter_engine show_sqlx account_id d).1.bus.published
          ≡ d.bus.published
            ++ sync_started account_id
              ∷ (progress
                  ++ (failure_events show_sqlx
                        ((sync_with_backend p host backend filter_engine show_sqlx account_id d).0)
                      ++ sync_completed account_id ∷ [])))
      × ((sync_with_backend p host backend filter_engine show_sqlx account_id d).1.bus.state.status
          ≡ idle)
unfolding sync_with_backend complete_sync
sync_with_backend_lem p host backend filter_engine show_sqlx account_id d =
    let opened = process_command d.bus (opening p host backend filter_engine account_id) in
    let (events, e, all) =
      fetch_and_persist-IsUnderWay p host backend filter_engine account_id opened
        (record d { bus = opened }) ([], sym (append-nil opened.published), tt) in
    (
      events,
      all,
      simp (
        report-published p host backend filter_engine account_id opened show_sqlx,
        e,
        opening-published p host backend filter_engine account_id d.bus,
        append_assoc,
      ),
      refl,
    )
