-- ===== src/Store/Worm/Tests.antt =====
-- Runs of the WORM audit table on an empty table and on one of a single record.
use nuncio.Common.{take, some, false}
use nuncio.Common.Sort.{sort_by_key}
use nuncio.Store.Database.{statement, outcome}
use nuncio.Store.Worm.{by_sequence, chain_report, list_worm_audit_records}
use nuncio.Store.Worm.Reported.{ReportOutcome, verify_worm_audit_chain_report_lem}
use nuncio.Common.{ℕ, ◌+◌, ◌≡◌, refl, [], ◌∷◌, ok, length}
use nuncio.Common.Int.{pos, ℤ}
use nuncio.Common.Text
use nuncio.Core.WormAudit.{
  Crypto, WormAuditRecord, compute_hmac, signed_bytes, verify_worm_chain, verify_from,
  verify_integrity,
}
use nuncio.Store.Database.{Database}
use nuncio.Store.Tests.{one_message}
use nuncio.Store.Worm.{append_worm_audit_record, verify_worm_audit_chain_report}
use nuncio.Store.Worm.Appended.{IsWorm, append_worm_audit_record-IsWorm}

-- A code that is only the number of bytes, and a clock that counts.
abbrev counting : Crypto
counting = record {
  hmac = λ key bytes. ok (Text.decimal (length bytes));
  sha256 = λ bytes. Text.decimal (length bytes);
}

abbrev clock : ℕ → ℤ
clock n = pos (10 + n)

abbrev first : WormAuditRecord
first = record {
  sequence = 1;
  timestamp_ns = pos 10;
  actor = "system";
  action = "mail.send";
  data_hash = "3";
  previous_block_hash = "GENESIS";
  record_hmac = "39";
}

abbrev audited : Database
audited = record one_message { worm_audit_records = first ∷ [] }

audited-IsWorm : IsWorm counting clock audited
unfolding verify_worm_chain verify_from verify_integrity compute_hmac signed_bytes Text.as_bytes
    Text.decimal
audited-IsWorm = (refl, (refl, tt))

append_worm_audit_record-IsWorm_example :
    IsWorm counting clock
      ((append_worm_audit_record counting clock "agent" "rule.add" (1 ∷ 2 ∷ []) audited).1)
append_worm_audit_record-IsWorm_example =
    append_worm_audit_record-IsWorm counting clock "agent" "rule.add" (1 ∷ 2 ∷ []) audited
      audited-IsWorm

-- The second record names another code than that of the first.
abbrev unlinked : Database
unlinked = record one_message {
  worm_audit_records = first ∷ record first { sequence = 2; previous_block_hash = "40" } ∷ [];
}

verify_worm_audit_chain_report_runs :
    (verify_worm_audit_chain_report counting clock unlinked).0
    ≡ ok (record { valid = false; record_count = 2; first_broken_seq = some 2 })
unfolding verify_worm_audit_chain_report list_worm_audit_records chain_report by_sequence statement
    outcome sort_by_key verify_worm_chain verify_from verify_integrity compute_hmac signed_bytes
    Text.as_bytes Text.decimal
verify_worm_audit_chain_report_runs = refl

verify_worm_audit_chain_report_lem_example :
    ReportOutcome counting clock unlinked.worm_key
      (take 100000 (by_sequence unlinked.worm_audit_records))
      ((verify_worm_audit_chain_report counting clock unlinked).0)
verify_worm_audit_chain_report_lem_example =
    verify_worm_audit_chain_report_lem counting clock unlinked refl
