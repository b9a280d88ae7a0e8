-- ===== src/Store/Ledger/Chain.antt =====
-- Which ledgers `verify_execution_log_chain` of crates/nuncio-store/src/db.rs accepts, and what
-- `save_filter_execution_log` makes of them.
use nuncio.Common.{
  ℕ, ◌+◌, String, ◌≡◌, refl, true, &&_iff, List, [], ◌∷◌, ◌++◌, Option, none, some, eq_iff,
}
use nuncio.Common.Action.{Keeps, continue, ◌>>◌, >>=-Keeps}
use nuncio.Store.Host.{Host}
use nuncio.Store.Outbox.{FilterExecutionLog}
use nuncio.Store.Database.{Database, statement, outcome, select, modify}
use nuncio.Store.Database.Statements.{statement-Keeps}
use nuncio.Store.Ledger.{
  compute_log_hash, latest_hash, next_log, save_filter_execution_log, chain_from,
}

module _ (host : Host) where
  -- The ledger verifies under its key.
  abbrev pub IsLedger : Database → Type 0
  IsLedger db = chain_from host "GENESIS" db.filter_execution_logs db.ledger_key ≡ true

  -- The hash that a record after these must name.
  hash_after : String → List FilterExecutionLog → String
  hash_after prev [] = prev
  hash_after prev (l ∷ ls) = hash_after l.hash ls

  latest_hash-eq :
      (logs : List FilterExecutionLog) → latest_hash host logs ≡ hash_after "GENESIS" logs
  unfolding latest_hash hash_after
  latest_hash-eq [] = refl
  latest_hash-eq (l ∷ ls) = from_last l ls
    where
      from_last :
          (l : FilterExecutionLog) (ls : List FilterExecutionLog)
          → latest_hash host (l ∷ ls) ≡ hash_after l.hash ls
      from_last l [] = refl
      from_last l (m ∷ ms) = from_last m ms

  chain_from-append :
      (prev : String) (logs : List FilterExecutionLog) (l : FilterExecutionLog) (key : List ℕ)
      → chain_from host prev logs key ≡ true
      → l.prev_hash ≡ hash_after prev logs
      → compute_log_hash host l.prev_hash l.rule_id l.message_id l.action_taken l.matched_at key
        ≡ l.hash
      → chain_from host prev (logs ++ l ∷ []) key ≡ true
  unfolding chain_from hash_after
  chain_from-append prev [] l key h p q =
      (&&_iff _ _).1 ((eq_iff _ _).1 p, (&&_iff _ _).1 ((eq_iff _ _).1 q, refl))
  chain_from-append prev (m ∷ ms) l key h p q =
      let (a, bc) = (&&_iff _ _).0 h in
      let (b, c) = (&&_iff _ _).0 bc in
      (&&_iff _ _).1 (a, (&&_iff _ _).1 (b, chain_from-append m.hash ms l key c p q))

  pub IsLedger-statement : Keeps IsLedger statement
  IsLedger-statement = statement-Keeps IsLedger (λ db o h. h)

  next_log-appends :
      (rule_id message_id action_taken : String) (db : Database)
      → IsLedger db
      → chain_from host "GENESIS"
          (db.filter_execution_logs
            ++ next_log host rule_id message_id action_taken
                (latest_hash host db.filter_execution_logs)
                db
              ∷ [])
          db.ledger_key
        ≡ true
  unfolding next_log
  next_log-appends rule_id message_id action_taken db h =
      chain_from-append "GENESIS" db.filter_execution_logs _ db.ledger_key h
        (latest_hash-eq db.filter_execution_logs) refl

  -- The insertion, whose statement may fail.
  insertion :
      (log : FilterExecutionLog) (o : List (Option String)) (db : Database)
      → IsLedger db
      → chain_from host "GENESIS" (db.filter_execution_logs ++ log ∷ []) db.ledger_key ≡ true
      → IsLedger (
          (continue
            (λ u.
              modify
                (λ db. record db { filter_execution_logs = db.filter_execution_logs ++ log ∷ [] })
              >> select (λ db. log))
            (outcome o db)).1)
  unfolding outcome
  insertion log [] db h k = k
  insertion log (none ∷ o) db h k = k
  insertion log (some e ∷ o) db h k = h

  -- A ledger that verifies still verifies after a record was appended to it, and when the append
  -- fails at either of its statements.
  pub save_filter_execution_log-IsLedger :
      (rule_id message_id action_taken : String) (db : Database)
      → IsLedger db
      → IsLedger ((save_filter_execution_log host rule_id message_id action_taken db).1)
  unfolding save_filter_execution_log statement
  save_filter_execution_log-IsLedger rule_id message_id action_taken =
      >>=-Keeps IsLedger statement _ IsLedger-statement (λ u db h.
        insertion _ db.outcomes (record db { ticks = db.ticks + 1 }) h
          (next_log-appends rule_id message_id action_taken db h))
