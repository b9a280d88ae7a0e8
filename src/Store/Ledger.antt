-- ===== src/Store/Ledger.antt =====
-- The filter execution ledger of crates/nuncio-store/src/db.rs: `compute_log_hash`,
-- `save_filter_execution_log` and `verify_execution_log_chain`.
pub mod Chain
use nuncio.Common.{
  ℕ, ◌+◌, String, Bool, true, false, ◌&&◌, List, [], ◌∷◌, ◌++◌, Option, none, some, if◌then◌else◌,
  str_eq, last?, length,
}
use nuncio.Common.Int.{ℤ, pos}
use nuncio.Common.Text.{◌⧺◌, decimal_ℤ, as_bytes}
use nuncio.Common.Action.{Action, ◌>>=◌, ◌>>◌}
use nuncio.Store.Host.{Host}
use nuncio.Store.Outbox.{FilterExecutionLog}
use nuncio.Store.Database.{Database, Db, statement, select, modify}

-- `AUTOINCREMENT`: rows are never deleted, so ids count them.
unfoldable pub next_id : List FilterExecutionLog → ℤ
next_id logs = pos (length logs + 1)

module _ (host : Host) where
  unfoldable pub compute_log_hash :
      (prev_hash rule_id message_id action_taken : String) (matched_at : ℤ) (secret_key : List ℕ)
      → String
  compute_log_hash prev_hash rule_id message_id action_taken matched_at secret_key =
      let payload =
        prev_hash
        ⧺ ":"
        ⧺ rule_id
        ⧺ ":"
        ⧺ message_id
        ⧺ ":"
        ⧺ action_taken
        ⧺ ":"
        ⧺ decimal_ℤ matched_at in
      elim (host.hmac_sha256 secret_key (as_bytes payload)) [
        | none ↦ ""
        | some code ↦ host.hex_encode code
      ]

  unfoldable pub latest_hash : List FilterExecutionLog → String
  latest_hash logs = elim (last? logs) [ none ↦ "GENESIS" | some l ↦ l.hash ]

  -- The record that `save_filter_execution_log` appends.
  unfoldable pub next_log :
      (rule_id message_id action_taken : String) (prev_hash : String)
      → Database
      → FilterExecutionLog
  next_log rule_id message_id action_taken prev_hash db =
      let matched_at = host.now db.ticks in
      record {
        id = next_id db.filter_execution_logs;
        rule_id = rule_id;
        message_id = message_id;
        action_taken = action_taken;
        matched_at = matched_at;
        prev_hash = prev_hash;
        hash = compute_log_hash prev_hash rule_id message_id action_taken matched_at db.ledger_key;
      }

  unfoldable pub save_filter_execution_log :
      (rule_id message_id action_taken : String) → Db FilterExecutionLog
  save_filter_execution_log rule_id message_id action_taken = do
    statement
    prev_hash ← select (λ db. latest_hash db.filter_execution_logs)
    log ← select (next_log rule_id message_id action_taken prev_hash)
    modify (λ db. record db { ticks = db.ticks + 1 })
    statement
    modify (λ db. record db { filter_execution_logs = db.filter_execution_logs ++ log ∷ [] })
    select (λ db. log)

  -- The loop of `verify_execution_log_chain`.
  unfoldable pub chain_from : (expected_prev : String) → List FilterExecutionLog → List ℕ → Bool
  chain_from expected_prev [] key = true
  chain_from expected_prev (l ∷ ls) key =
      let rest = chain_from l.hash ls key in
      str_eq l.prev_hash expected_prev
      && (str_eq
            (compute_log_hash l.prev_hash l.rule_id l.message_id l.action_taken l.matched_at key)
            l.hash
          && rest)

  unfoldable pub verify_execution_log_chain : Db Bool
  unfolding chain_from
  verify_execution_log_chain = do
    statement
    select (λ db. chain_from "GENESIS" db.filter_execution_logs db.ledger_key)
