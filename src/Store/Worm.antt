-- ===== src/Store/Worm.antt =====
-- The WORM audit table of crates/nuncio-store/src/db.rs: `append_worm_audit_record`,
-- `list_worm_audit_records`, `verify_worm_audit_chain` and its report. Triggers of the schema refuse
-- every update and deletion of a row. Sequence numbers are below 2^63.
pub mod Appended
pub mod Reported
mod Tests
use nuncio.Common.{
  ℕ, zero, suc, ◌+◌, String, Bool, true, false, List, [], ◌∷◌, ◌++◌, Option, none, some, Result, ok,
  err, map_err, last?, take, drop, length,
}
use nuncio.Common.Int.{ℤ, pos}
use nuncio.Common.Sort.{sort_by_key}
use nuncio.Common.Text.{◌⧺◌, decimal}
use nuncio.Common.Action.{◌>>=◌, ◌>>◌}
use nuncio.Core.WormAudit.{
  Crypto, WormAuditRecord, WormAuditError, tampering_detected, signing_error, create_signed,
  verify_worm_chain,
}
use nuncio.Store.Database.{
  Database, Db, DatabaseError, chain_integrity_failed, statement, select, modify,
}

pub record WormChainReport : Type 0 where
  pub valid : Bool
  pub record_count : ℕ
  pub first_broken_seq : Option ℕ

show_worm_error : WormAuditError → String
show_worm_error (tampering_detected sequence expected_hmac actual_hmac) =
    "tampering detected at sequence "
    ⧺ decimal sequence
    ⧺ ": expected HMAC "
    ⧺ expected_hmac
    ⧺ ", found "
    ⧺ actual_hmac
show_worm_error (signing_error e) = "cryptographic signing error: " ⧺ e

unfoldable pub chain_error : WormAuditError → DatabaseError
unfolding show_worm_error
chain_error e = chain_integrity_failed (show_worm_error e)

-- `ORDER BY sequence ASC`
unfoldable pub by_sequence : List WormAuditRecord → List WormAuditRecord
by_sequence rows = sort_by_key (λ r. pos r.sequence) rows

-- The sequence number and the link of the record to append.
unfoldable pub next_link : Option WormAuditRecord → ℕ × String
next_link none = (1, "GENESIS")
next_link (some r) = (r.sequence + 1, r.record_hmac)

-- `now_ns` is the system clock in nanoseconds, by how often clocks were read.
module _ (c : Crypto) (now_ns : ℕ → ℤ) where
  signed_next :
      (actor action : String) (data_payload : List ℕ)
      → ℕ × String
      → Database
      → Result DatabaseError WormAuditRecord
  signed_next actor action data_payload (next_seq, prev_hash) db =
      map_err chain_error
        (create_signed c db.worm_key next_seq (now_ns db.ticks) actor action data_payload prev_hash)

  unfoldable pub append_worm_audit_record :
      (actor action : String) (data_payload : List ℕ) → Db WormAuditRecord
  unfolding signed_next
  append_worm_audit_record actor action data_payload = do
    statement
    link ← select (λ db. next_link (last? (by_sequence db.worm_audit_records)))
    r ← λ db. (signed_next actor action data_payload link db, record db { ticks = db.ticks + 1 })
    statement
    modify (λ db. record db { worm_audit_records = db.worm_audit_records ++ r ∷ [] })
    select (λ db. r)

  unfoldable pub list_worm_audit_records : (limit offset : ℕ) → Db (List WormAuditRecord)
  list_worm_audit_records limit offset = do
    statement
    select (λ db. take limit (drop offset (by_sequence db.worm_audit_records)))

  unfoldable pub verify_worm_audit_chain : Db (Unit {0})
  verify_worm_audit_chain = do
    records ← list_worm_audit_records 100000 0
    λ db. (map_err chain_error (verify_worm_chain c records db.worm_key), db)

  unfoldable pub chain_report :
      ℕ → Result WormAuditError (Unit {0}) → Result DatabaseError WormChainReport
  chain_report record_count (ok u) =
      ok (record { valid = true; record_count = record_count; first_broken_seq = none })
  chain_report record_count (err (tampering_detected sequence expected_hmac actual_hmac)) =
      ok (record { valid = false; record_count = record_count; first_broken_seq = some sequence })
  chain_report record_count (err (signing_error e)) = err (chain_error (signing_error e))

  unfoldable pub verify_worm_audit_chain_report : Db WormChainReport
  verify_worm_audit_chain_report = do
    records ← list_worm_audit_records 100000 0
    λ db. (chain_report (length records) (verify_worm_chain c records db.worm_key), db)
