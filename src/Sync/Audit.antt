-- ===== src/Sync/Audit.antt =====
-- The execution ledger under crates/nunciod/src/sync.rs.
use nuncio.Common.{◌+◌, String, Option, none, some, All-of}
use nuncio.Common.Action.{Keeps}
use nuncio.Core.Model.{Email}
use nuncio.Filter.Platform.{Platform}
use nuncio.Filter.Engine.{FilterEngine}
use nuncio.Store.Host.{Host}
use nuncio.Store.Database.{SqlxError}
use nuncio.Store.Database.Statements.{write-Keeps}
use nuncio.Store.Messages.{write_email}
use nuncio.Store.Messages.Frame.{
  save_email-Keeps, get_message-Keeps, set_message_read-Keeps, get_folder_sync_state-Keeps,
  save_folder_sync_state-Keeps,
}
use nuncio.Store.Queue.{save_pending_mutation}
use nuncio.Store.Ledger.Chain.{IsLedger, save_filter_execution_log-IsLedger}
use nuncio.Sync.Backend.{MailBackend}
use nuncio.Sync.Actions.{enqueue_remote}
use nuncio.Sync.Fetch.{Daemon, persist_one, fetch_and_persist, opening, sync_with_backend}
use nuncio.Core.EventBus.{process_command}
use nuncio.Sync.Frame.{fetch_and_persist-Keeps}
use nuncio.Sync.Routing.{persist_one-Keeps}

module _ (p : Platform) (host : Host) where
  enqueue_remote-IsLedger :
      (rule_id message_id : String) (t : Option (String × Option String))
      → Keeps (IsLedger host) (enqueue_remote p host rule_id message_id t)
  unfolding enqueue_remote save_pending_mutation
  enqueue_remote-IsLedger rule_id message_id none db h = h
  enqueue_remote-IsLedger rule_id message_id (some (tag, target)) db h =
      write-Keeps (IsLedger host) (λ db o h. h) _ (λ db h. h) (record db { ticks = db.ticks + 2 }) h

  module _ (backend : MailBackend) (filter_engine : FilterEngine p) where
    persist_one-IsLedger :
        (e : Email) → Keeps (λ d. IsLedger host d.db) (persist_one p host backend filter_engine e)
    unfolding write_email
    persist_one-IsLedger e =
        persist_one-Keeps p host (IsLedger host) (λ i. Unit {0})
          (λ i read u.
            set_message_read-Keeps host (IsLedger host) (λ db o h. h) (λ db m h. h) i read)
          enqueue_remote-IsLedger (save_filter_execution_log-IsLedger host) backend filter_engine
          (λ e. save_email-Keeps host (IsLedger host) (λ db o h. h) e (λ db n h. h) (λ b db h. h))
          (get_message-Keeps host (IsLedger host) (λ db o h. h)) e tt

    pub fetch_and_persist-IsLedger :
        (account_id : Option String)
        → Keeps
            (λ d. IsLedger host d.db)
            (fetch_and_persist p host backend filter_engine account_id)
    fetch_and_persist-IsLedger =
        fetch_and_persist-Keeps p host backend filter_engine (IsLedger host) (λ e. Unit {0})
          (λ f s es st e. All-of (λ m. Unit {0}) (λ m. tt) es) (λ e q. persist_one-IsLedger e)
          (get_folder_sync_state-Keeps host (IsLedger host) (λ db o h. h))
          (save_folder_sync_state-Keeps host (IsLedger host) (λ db o h. h) (λ db s h. h))

    -- Whatever the backend serves, whichever rules match and whichever statements of the database
    -- fail, a run leaves an execution ledger that verifies if the ledger verified before.
    pub sync_with_backend-IsLedger :
        (show_sqlx : SqlxError → String) (account_id : Option String) (d : Daemon)
        → IsLedger host d.db
        → IsLedger host
            ((sync_with_backend p host backend filter_engine show_sqlx account_id d).1.db)
    unfolding sync_with_backend
    sync_with_backend-IsLedger show_sqlx account_id d h =
        fetch_and_persist-IsLedger account_id
          (record d {
            bus = process_command d.bus (opening p host backend filter_engine account_id);
          })
          h
