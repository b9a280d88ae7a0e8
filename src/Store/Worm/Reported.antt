-- ===== src/Store/Worm/Reported.antt =====
-- What `verify_worm_audit_chain_report` of crates/nuncio-store/src/db.rs says of the WORM audit table.
use nuncio.Common.{
  ℕ, String, ◌≡◌, refl, true, false, List, [], ◌⊎◌, inl, inr, none, some, Result, ok, err, take,
  length,
}
use nuncio.Common.Int.{ℤ}
use nuncio.Core.WormAudit.{
  Crypto, WormAuditRecord, WormAuditError, signing_error, tampering_detected, verify_worm_chain,
}
use nuncio.Core.WormAudit.Chain.{IsChain}
use nuncio.Core.WormAudit.Verdict.{Stops, Breaks, Refuses, Verdict, verify_from-Verdict}
use nuncio.Store.Database.{Database, DatabaseError}
use nuncio.Store.Database.Statements.{statement-quiet}
use nuncio.Store.Worm.{
  WormChainReport, chain_error, by_sequence, list_worm_audit_records, chain_report,
  verify_worm_audit_chain_report,
}

module _ (c : Crypto) (now_ns : ℕ → ℤ) (secret_key : List ℕ) (rs : List WormAuditRecord) where
  -- Valid and a chain, or not valid and broken first at the record of the number.
  abbrev pub Finding : WormChainReport → Type 0
  Finding report =
      ((report.valid ≡ true) × (report.first_broken_seq ≡ none) × IsChain c secret_key "GENESIS" rs)
      ⊎ ((report.valid ≡ false)
          × ((sequence : ℕ) × (report.first_broken_seq ≡ some sequence)
              × Stops c secret_key "GENESIS" rs (Breaks c secret_key sequence)))

  abbrev pub ReportOutcome : Result DatabaseError WormChainReport → Type 0
  ReportOutcome (ok report) = (report.record_count ≡ length rs) × Finding report
  ReportOutcome (err x) =
      (e : String) × (x ≡ chain_error (signing_error e))
      × Stops c secret_key "GENESIS" rs (Refuses c secret_key e)

  chain_report-ReportOutcome :
      (m : Result WormAuditError (Unit {0}))
      → Verdict c secret_key "GENESIS" rs m
      → ReportOutcome (chain_report c now_ns (length rs) m)
  unfolding chain_report
  chain_report-ReportOutcome (ok u) h = (refl, inl (refl, refl, h))
  chain_report-ReportOutcome (err (tampering_detected sequence expected actual)) h =
      (refl, inr (refl, (sequence, refl, h)))
  chain_report-ReportOutcome (err (signing_error e)) h = (e, refl, h)

module _ (c : Crypto) (now_ns : ℕ → ℤ) where
  -- As long as the database answers, the report is on the first 100000 records by sequence number, and
  -- counts them. Either it says valid, and they are a chain: each is sealed with its own HMAC and
  -- names the code of the one before it, the first "GENESIS". Or it says not valid and names the
  -- sequence number of a record that is not linked or not sealed, while the records before it are a
  -- chain. Or it is an error, and the HMAC of a record, with a chain before it, cannot be computed.
  pub verify_worm_audit_chain_report_lem :
      (db : Database)
      → db.outcomes ≡ []
      → ReportOutcome c now_ns db.worm_key
          (take 100000 (by_sequence db.worm_audit_records))
          ((verify_worm_audit_chain_report c now_ns db).0)
  unfolding verify_worm_audit_chain_report list_worm_audit_records verify_worm_chain
  verify_worm_audit_chain_report_lem db quiet = rw (statement-quiet db quiet) (
      chain_report-ReportOutcome c now_ns db.worm_key _ _ (
        verify_from-Verdict c db.worm_key "GENESIS"
          (take 100000 (by_sequence db.worm_audit_records))))
