-- ===== src/Rpc/Triage.antt =====
-- The worker of `triage` in crates/nunciod/src/grpc.rs: the filters fire on every stored message, page
-- by page. Counts are below 2^64. The loop runs on fuel; the receiver of the stream takes `hears`
-- items and is then dropped.
pub mod Frame
pub mod Pages
pub mod Termination
pub mod OnePass
mod Tests
use nuncio.Common.{
  ℕ, zero, suc, ◌+◌, String, Bool, true, false, List, [], ◌∷◌, length, Option, none, some, Result,
  ok, err, if◌then◌else◌, ltb, last?, ◌==◌,
}
use nuncio.Common.Text.{◌⧺◌}
use nuncio.Core.Model.{Email}
use nuncio.Filter.Platform.{Platform}
use nuncio.Filter.Engine.{FilterEngine}
use nuncio.Store.Host.{Host}
use nuncio.Store.Database.{Database, DatabaseError, SqlxError, show_database_error}
use nuncio.Store.Chunk.{get_message_chunk}
use nuncio.Sync.Actions.{apply_filter_actions}
use nuncio.Rpc.Service.{Status, internal}

pub record TriageProgress : Type 0 where
  pub scanned_count : ℕ
  pub matched_count : ℕ
  pub actions_applied_count : ℕ
  pub last_message_id : String
  pub done : Bool

-- The counters of the worker.
pub record Counts : Type 0 where
  pub scanned : ℕ
  pub matched : ℕ
  pub applied : ℕ

-- How the worker ended, the last one for want of fuel.
pub data Ending : Type 0 where
  finished failed disconnected exhausted : Ending

-- What was put on the stream, the end, and the database then.
pub record Run : Type 0 where
  pub stream : List (Result Status TriageProgress)
  pub ending : Ending
  pub db : Database

unfoldable pub chunk_size_of : ℕ → ℕ
chunk_size_of requested = if requested == 0 then 100 else requested

-- `batch.last()`
unfoldable pub last_id_of : String → Option Email → String
last_id_of last_id none = last_id
last_id_of last_id (some email) = email.id

unfoldable pub progress_of : Counts → String → Bool → TriageProgress
progress_of c last_id done = record {
  scanned_count = c.scanned;
  matched_count = c.matched;
  actions_applied_count = c.applied;
  last_message_id = last_id;
  done = done;
}

-- An item in front of the run that follows.
unfoldable pub sent : TriageProgress → Run → Run
sent progress run = record run { stream = ok progress ∷ run.stream }

-- The item for a page goes to the receiver, if it still listens; the last page ends the run.
unfoldable pub report_page : TriageProgress → (hears : ℕ) → Database → (ℕ → Run) → Run
report_page progress zero db next = record { stream = []; ending = disconnected; db = db }
report_page progress (suc hears) db next = elim progress.done [
  | true ↦ record { stream = ok progress ∷ []; ending = finished; db = db }
  | false ↦ sent progress (next hears)
]

-- `let _ = tx.send(..)` of the failure.
unfoldable pub fail_scan : String → (hears : ℕ) → Database → Run
fail_scan e zero db = record { stream = []; ending = failed; db = db }
fail_scan e (suc hears) db = record {
  stream = err (internal ("failed to read message chunk during triage: " ⧺ e)) ∷ [];
  ending = failed;
  db = db;
}

module _ (p : Platform) (host : Host) (engine : FilterEngine p) (show_sqlx : SqlxError → String)
    (chunk_size : ℕ) where
  -- The body of the loop over a page.
  unfoldable pub count_one : Counts → ℕ × Database → Counts × Database
  count_one c (actions_for_email, db) = (
    record {
      scanned = c.scanned + 1;
      matched = if ltb 0 actions_for_email then c.matched + 1 else c.matched;
      applied = c.applied + actions_for_email;
    },
    db,
  )

  unfoldable pub scan_page : List Email → Counts → Database → Counts × Database
  scan_page [] c db = (c, db)
  scan_page (email ∷ batch) c db =
      let (c, db) = count_one c (apply_filter_actions p host engine email db) in
      scan_page batch c db

  -- What follows the reading of a page.
  unfoldable pub one_page :
      (ℕ → String → Counts → Database → Run)
      → (hears : ℕ) (last_id : String) → Counts
      → Result DatabaseError (List Email) × Database
      → Run
  one_page next hears last_id c (err e, db) = fail_scan (show_database_error show_sqlx e) hears db
  one_page next hears last_id c (ok batch, db) =
      let (c, db) = scan_page batch c db in
      let last_id = last_id_of last_id (last? batch) in
      report_page (progress_of c last_id (ltb (length batch) chunk_size)) hears db
        (λ hears. next hears last_id c db)

  unfoldable pub triage_loop : (fuel : ℕ) (hears : ℕ) (last_id : String) → Counts → Database → Run
  triage_loop zero hears last_id c db = record { stream = []; ending = exhausted; db = db }
  triage_loop (suc fuel) hears last_id c db =
      one_page (triage_loop fuel) hears last_id c (get_message_chunk host last_id chunk_size db)

abbrev pub no_counts : Counts
no_counts = record { scanned = 0; matched = 0; applied = 0 }

-- The request names a page size; there is a round for every message, and one more.
unfoldable pub triage :
    (p : Platform) (host : Host)
    → FilterEngine p
    → (SqlxError → String)
    → (requested hears : ℕ) → Database
    → Run
triage p host engine show_sqlx requested hears db =
    triage_loop p host engine show_sqlx (chunk_size_of requested) (length db.messages + 1) hears ""
      no_counts db
