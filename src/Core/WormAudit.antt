-- ===== src/Core/WormAudit.antt =====
-- crates/nuncio-core/src/worm_audit.rs: signed audit records, each linked to the one before it. The
-- HMAC and the hash (crates `hmac` and `sha2`, hex-encoded) are parameters.
pub mod Chain
pub mod Verdict
pub mod Tampering
use nuncio.Common.{
  ℕ, ◌+◌, ◌/◌, ◌%◌, ◌^◌, ◌-◌, String, List, [], ◌∷◌, ◌++◌, Result, ok, err, ◌>>=◌, ◌>>◌,
  if◌then◌else◌, str_eq,
}
use nuncio.Common.Int.{ℤ, pos, negsuc}
use nuncio.Common.Text.{as_bytes}

pub data WormAuditError : Type 0 where
  tampering_detected : (sequence : ℕ) (expected_hmac actual_hmac : String) → WormAuditError
  signing_error : String → WormAuditError

-- `HmacSha256::new_from_slice` refuses a key with an error; otherwise `hmac` is the hex-encoded code
-- of the bytes that were fed to it.
pub record Crypto : Type 0 where
  pub hmac : (secret_key : List ℕ) → List ℕ → Result String String
  pub sha256 : List ℕ → String

pub record WormAuditRecord : Type 0 where
  pub sequence : ℕ
  pub timestamp_ns : ℤ
  pub actor : String
  pub action : String
  pub data_hash : String
  pub previous_block_hash : String
  pub record_hmac : String

-- `u64::to_be_bytes`
pub be_bytes : ℕ → List ℕ
be_bytes n =
    (n / 2 ^ 56 % 256)
    ∷ (n / 2 ^ 48 % 256)
    ∷ (n / 2 ^ 40 % 256)
    ∷ (n / 2 ^ 32 % 256)
    ∷ (n / 2 ^ 24 % 256)
    ∷ (n / 2 ^ 16 % 256)
    ∷ (n / 2 ^ 8 % 256)
    ∷ (n % 256)
    ∷ []

-- `i64::to_be_bytes`: two's complement.
pub be_bytes_ℤ : ℤ → List ℕ
be_bytes_ℤ (pos n) = be_bytes n
be_bytes_ℤ (negsuc n) = be_bytes (2 ^ 64 - 1 - n)

-- What `compute_hmac` feeds to the HMAC, piece by piece.
unfoldable pub signed_bytes : ℕ → ℤ → String → String → String → String → List ℕ
unfolding be_bytes be_bytes_ℤ
signed_bytes sequence timestamp_ns actor action data_hash previous_block_hash =
    be_bytes sequence
    ++ (be_bytes_ℤ timestamp_ns
        ++ (as_bytes actor
            ++ (as_bytes action ++ (as_bytes data_hash ++ as_bytes previous_block_hash))))

module _ (c : Crypto) where
  signing : Result String String → Result WormAuditError String
  signing (ok code) = ok code
  signing (err e) = err (signing_error e)

  unfoldable pub compute_hmac :
      List ℕ → ℕ → ℤ → String → String → String → String → Result WormAuditError String
  unfolding signing
  compute_hmac secret_key sequence timestamp_ns actor action data_hash previous_block_hash =
      signing (
        c.hmac secret_key
          (signed_bytes sequence timestamp_ns actor action data_hash previous_block_hash))

  unfoldable pub create_signed :
      List ℕ → ℕ → ℤ → String → String → List ℕ → String → Result WormAuditError WormAuditRecord
  create_signed secret_key sequence timestamp_ns actor action data_payload previous_block_hash = do
    let data_hash = c.sha256 data_payload
    record_hmac ←
        compute_hmac secret_key sequence timestamp_ns actor action data_hash previous_block_hash
    ok (record {
      sequence = sequence;
      timestamp_ns = timestamp_ns;
      actor = actor;
      action = action;
      data_hash = data_hash;
      previous_block_hash = previous_block_hash;
      record_hmac = record_hmac;
    })

  unfoldable pub verify_integrity : WormAuditRecord → List ℕ → Result WormAuditError (Unit {0})
  verify_integrity r secret_key = do
    expected ←
        compute_hmac secret_key r.sequence r.timestamp_ns r.actor r.action r.data_hash
          r.previous_block_hash
    if str_eq expected r.record_hmac
        then ok tt
        else err (tampering_detected r.sequence expected r.record_hmac)

  -- The loop of `verify_worm_chain`, with `last_hash`.
  unfoldable pub verify_from :
      String → List WormAuditRecord → List ℕ → Result WormAuditError (Unit {0})
  verify_from last_hash [] secret_key = ok tt
  verify_from last_hash (r ∷ rs) secret_key =
      let rest = verify_from r.record_hmac rs secret_key in
      if str_eq r.previous_block_hash last_hash
      then (verify_integrity r secret_key >> rest)
      else err (tampering_detected r.sequence last_hash r.previous_block_hash)

  unfoldable pub verify_worm_chain :
      List WormAuditRecord → List ℕ → Result WormAuditError (Unit {0})
  unfolding verify_from
  verify_worm_chain records secret_key = verify_from "GENESIS" records secret_key
