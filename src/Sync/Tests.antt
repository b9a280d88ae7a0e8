-- ===== src/Sync/Tests.antt =====
-- Runs of the model of synchronisation on one account with two rules and one message.
use nuncio.Common.{◌≡◌, refl, String, true, List, [], ◌∷◌, ◌++◌, map, length, none, some, ok, All}
use mathlib.Core.Path.{subst}
use nuncio.Core.Model.{Email, Folder}
use nuncio.Core.EventBus.{
  EventBus, CoreEvent, sync_started, sync_completed, idle, with_initial_state,
}
use nuncio.Filter.Engine.{evaluate}
use nuncio.Filter.Tests.{literal, message, engine}
use nuncio.Store.Database.{SqlxError, statement, outcome, is_not_found}
use nuncio.Store.Messages.{
  is_stored, set_message_read, replace_message, write_email, row_of, get_folder_sync_state,
  save_email, get_message, save_folder_sync_state, email_of,
}
use nuncio.Store.Queue.{save_pending_mutation}
use nuncio.Store.Ledger.{save_filter_execution_log}
use nuncio.Common.Text.{contains, eq_ignore_ascii_case}
use nuncio.Filter.Compiled.{matches_account, evaluate_condition, eval_leaf}
use nuncio.Store.Ledger.Chain.{IsLedger}
use nuncio.Store.Tests.{plain_host, one_message, empty-IsLedger}
use nuncio.Sync.Backend.{MailBackend}
use nuncio.Sync.Actions.{
  is_new_message, judge_new, apply_filter_actions, apply_matches, apply_actions, apply_action,
  apply_immediate, counted, enqueue_remote, remote_action_tag,
}
use nuncio.Sync.Fetch.{
  Daemon, sync_with_backend, fetch_and_persist, fetch_folders, fetch_folder, last_state_of,
  land_folder, persist_all, persist_one, fire_if_new, save_state_of,
}
use nuncio.Sync.Frame.{Serves}
use nuncio.Sync.Audit.{sync_with_backend-IsLedger}
use nuncio.Sync.Resync.{resync_quiet}
use nuncio.Sync.Firing.{entry, planned, apply_filter_actions_lem}
use nuncio.Sync.Landed.{Landed, sync_with_backend_stores}
use nuncio.Sync.Lifecycle.{IsProgress, failure_events, sync_with_backend_lem}

abbrev pub inbox : Folder
inbox = record { id = "inbox"; name = "Inbox"; total_messages = 1; unread_messages = 1 }

-- The server serves the one message, whatever it is asked.
abbrev pub server : MailBackend
server = record {
  sync_folders = ok (inbox ∷ []);
  sync_messages = λ folder_id since. ok (message ∷ [], "state-1");
}

abbrev pub bus : EventBus
bus =
    with_initial_state
      (record { status = idle; accounts_loaded = 1; unread_count = 0; last_error = none })

-- The message is stored, and the first statement will fail.
abbrev pub daemon : Daemon
daemon = record { db = record one_message { outcomes = some "locked" ∷ [] }; bus = bus }

abbrev pub show : SqlxError → String
show e = "failed"

stored : is_stored "msg-1" one_message ≡ true
unfolding is_stored
stored = refl

serves_stored : Serves server (λ e. is_stored e.id one_message ≡ true)
serves_stored folder_id since emails state e = served emails (cc e)
  where
    served :
        (emails : List Email)
        → message ∷ [] ≡ emails
        → All (λ e. is_stored e.id one_message ≡ true) emails
    served emails same =
        subst (λ es. All (λ e. is_stored e.id one_message ≡ true) es) same (stored, tt)

apply_filter_actions_lem_example :
    ((apply_filter_actions literal plain_host engine message one_message).0
      ≡ length (planned "msg-1" (evaluate literal engine message)))
    × (map entry (
          (apply_filter_actions literal plain_host engine message
            one_message).1.filter_execution_logs)
        ≡ [] ++ planned "msg-1" (evaluate literal engine message))
apply_filter_actions_lem_example =
    apply_filter_actions_lem literal plain_host engine message one_message refl stored

sync_with_backend-IsLedger_example :
    IsLedger plain_host
      ((sync_with_backend literal plain_host server engine show (some "work") daemon).1.db)
sync_with_backend-IsLedger_example =
    sync_with_backend-IsLedger literal plain_host server engine show (some "work") daemon
      empty-IsLedger

resync_quiet_example :
    ((sync_with_backend literal plain_host server engine show
        (some "work")
        daemon).1.db.pending_remote_mutations
      ≡ [])
    × ((sync_with_backend literal plain_host server engine show
          (some "work")
          daemon).1.db.filter_execution_logs
        ≡ [])
    × ((i : String)
        → is_stored i daemon.db ≡ true
        → is_stored i
            ((sync_with_backend literal plain_host server engine show (some "work") daemon).1.db)
          ≡ true)
unfolding is_stored
resync_quiet_example =
    resync_quiet literal plain_host server engine show (some "work") daemon serves_stored

sync_with_backend_lem_example :
    (progress : List CoreEvent) × All (IsProgress (some "work")) progress
    × ((sync_with_backend literal plain_host server engine show
          (some "work")
          daemon).1.bus.published
        ≡ []
          ++ sync_started (some "work")
            ∷ (progress
                ++ (failure_events show (
                      (sync_with_backend literal plain_host server engine show
                        (some "work")
                        daemon).0)
                    ++ sync_completed (some "work") ∷ [])))
    × ((sync_with_backend literal plain_host server engine show
          (some "work")
          daemon).1.bus.state.status
        ≡ idle)
sync_with_backend_lem_example =
    sync_with_backend_lem literal plain_host server engine show (some "work") daemon

-- Nothing is stored yet, and no statement will fail.
abbrev pub fresh : Daemon
fresh = record { db = record one_message { messages = [] }; bus = bus }

succeeds : (sync_with_backend literal plain_host server engine show (some "work") fresh).0 ≡ ok 1
unfolding sync_with_backend fetch_and_persist fetch_folders fetch_folder last_state_of land_folder
    persist_all persist_one fire_if_new save_state_of get_folder_sync_state save_email get_message
    save_folder_sync_state email_of statement outcome is_not_found is_new_message judge_new
    apply_filter_actions apply_matches apply_actions apply_action apply_immediate counted
    enqueue_remote remote_action_tag evaluate set_message_read save_pending_mutation
    save_filter_execution_log is_stored matches_account evaluate_condition eval_leaf contains
    eq_ignore_ascii_case replace_message write_email row_of
succeeds = refl

sync_with_backend_stores_example :
    (fs : List Folder) × (server.sync_folders ≡ ok fs)
    × All
        (Landed server
          ((sync_with_backend literal plain_host server engine show (some "work") fresh).1.db))
        fs
sync_with_backend_stores_example =
    sync_with_backend_stores literal plain_host server engine show (some "work") fresh 1 succeeds
