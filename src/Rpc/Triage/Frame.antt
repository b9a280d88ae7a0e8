-- ===== src/Rpc/Triage/Frame.antt =====
-- What the filters leave of the database when they fire on a message of a page, in the worker of
-- `triage` of crates/nunciod/src/grpc.rs.
use nuncio.Common.{
  ℕ, ◌+◌, String, ◌≡◌, refl, Bool, false, List, [], ◌∷◌, Option, none, some, keep, All, All-of, ◌∙◌,
}
use nuncio.Common.Action.{Keeps, >>=-Keeps}
use nuncio.Core.Model.{Email}
use nuncio.Filter.Platform.{Platform}
use nuncio.Filter.Engine.{FilterEngine}
use nuncio.Store.Host.{Host}
use nuncio.Store.Database.{Database, SqlxError, MessageRow, statement, outcome}
use nuncio.Store.Database.Statements.{statement-Keeps}
use nuncio.Store.Messages.{set_message_read}
use nuncio.Store.Messages.Flagged.{set_message_read-selects}
use nuncio.Store.Queue.{save_pending_mutation}
use nuncio.Store.Ledger.{save_filter_execution_log}
use nuncio.Sync.Actions.{enqueue_remote}
use nuncio.Sync.Routing.{apply_filter_actions-Keeps}
use nuncio.Rpc.Triage.{Counts, count_one, scan_page}

module _ (p : Platform) (host : Host) (engine : FilterEngine p) where
  -- A property that statements keep, whatever they come to, and writes of other tables and counters.
  module _ (P : Database → Type 0) (stated : Keeps P statement)
      (elsewhere : (db after : Database)
        → after.messages ≡ db.messages
        → after.outcomes ≡ db.outcomes
        → after.storage_key ≡ db.storage_key
        → P db
        → P after) where
    enqueue_remote-free :
        (rule_id message_id : String) (t : Option (String × Option String))
        → Keeps P (enqueue_remote p host rule_id message_id t)
    unfolding enqueue_remote save_pending_mutation
    enqueue_remote-free rule_id message_id none db h = h
    enqueue_remote-free rule_id message_id (some (tag, target)) db h =
        >>=-Keeps P statement _ stated (λ u db h. elsewhere db _ refl refl refl h)
          (record db { ticks = db.ticks + 2 }) (elsewhere db _ refl refl refl h)

    save_filter_execution_log-free :
        (rule_id message_id action_taken : String)
        → Keeps P (save_filter_execution_log host rule_id message_id action_taken)
    unfolding save_filter_execution_log
    save_filter_execution_log-free rule_id message_id action_taken =
        >>=-Keeps P statement _ stated (λ u db h.
          >>=-Keeps P statement _ stated (λ v db h. elsewhere db _ refl refl refl h)
            (record db { ticks = db.ticks + 1 }) (elsewhere db _ refl refl refl h))

    module _ (Q : String → Type 0)
        (flagged : (id : String) (read : Bool) → Q id → Keeps P (set_message_read id read)) where
      scan_page-Keeps :
          (show_sqlx : SqlxError → String) (chunk_size : ℕ) (batch : List Email) (c : Counts)
          (db : Database)
          → All (λ e. Q e.id) batch
          → P db
          → P ((scan_page p host engine show_sqlx chunk_size batch c db).1)
      unfolding scan_page count_one
      scan_page-Keeps show_sqlx chunk_size [] c db q h = h
      scan_page-Keeps show_sqlx chunk_size (e ∷ es) c db (q, qs) h =
          scan_page-Keeps show_sqlx chunk_size es _ _ qs (
            apply_filter_actions-Keeps p host P Q flagged enqueue_remote-free
              save_filter_execution_log-free engine e db q h)

  module _ (show_sqlx : SqlxError → String) (chunk_size : ℕ) where
    -- A page whose ids a selection leaves out does not change the selection.
    pub scan_page-selects :
        (q : String → Bool) (rows : List MessageRow) (batch : List Email) (c : Counts)
        (db : Database)
        → All (λ e. q e.id ≡ false) batch
        → keep (λ r. q r.id) db.messages ≡ rows
        → keep (λ r. q r.id) ((scan_page p host engine show_sqlx chunk_size batch c db).1.messages)
          ≡ rows
    scan_page-selects q rows =
        scan_page-Keeps (λ db. keep (λ r. q r.id) db.messages ≡ rows)
          (statement-Keeps (λ db. keep (λ r. q r.id) db.messages ≡ rows) (λ db o h. h))
          (λ db after m o k h. rw m h) (λ id. q id ≡ false)
          (λ id read u. set_message_read-selects q id read u rows) show_sqlx chunk_size

    -- A database that answers goes on to answer, under the same key.
    abbrev pub Quiet : List ℕ → Database → Type 0
    Quiet key db = (db.outcomes ≡ []) × (db.storage_key ≡ key)

    statement-Quiet : (key : List ℕ) → Keeps (Quiet key) statement
    unfolding statement
    statement-Quiet key db h = answered db.outcomes db (h.0) h
      where
        answered :
            (o : List (Option String)) (db : Database)
            → o ≡ []
            → Quiet key db
            → Quiet key ((outcome o db).1)
        answered [] db e h = h
        answered (x ∷ o) db e h = cc e

    pub scan_page-Quiet :
        (key : List ℕ) (batch : List Email) (c : Counts) (db : Database)
        → Quiet key db
        → Quiet key ((scan_page p host engine show_sqlx chunk_size batch c db).1)
    unfolding set_message_read
    scan_page-Quiet key batch c db =
        scan_page-Keeps (Quiet key) (statement-Quiet key) (λ db after m o k (q, s). (o ∙ q, k ∙ s))
          (λ id. Unit {0})
          (λ id read u. >>=-Keeps (Quiet key) statement _ (statement-Quiet key) (λ v db h. h))
          show_sqlx chunk_size batch c db (All-of (λ e. Unit {0}) (λ e. tt) batch)
