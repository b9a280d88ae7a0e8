-- ===== src/Core/WormAudit/Tampering.antt =====
-- What the codes of crates/nuncio-core/src/worm_audit.rs do not tell apart.
use nuncio.Common.{ℕ, ◌≡◌, List, String}
use mathlib.Core.List.{append_assoc}
use nuncio.Common.Int.{ℤ}
use nuncio.Common.Text.{◌⧺◌, as_bytes-append}
use nuncio.Core.WormAudit.{Crypto, signed_bytes, compute_hmac}

signed_bytes-shift :
    (sequence : ℕ) (timestamp_ns : ℤ) (a b rest data_hash previous_block_hash : String)
    → signed_bytes sequence timestamp_ns (a ⧺ b) rest data_hash previous_block_hash
      ≡ signed_bytes sequence timestamp_ns a (b ⧺ rest) data_hash previous_block_hash
unfolding signed_bytes
signed_bytes-shift sequence timestamp_ns a b rest data_hash previous_block_hash =
    simp (as_bytes-append a b, as_bytes-append b rest, append_assoc)

-- Text moved from the end of the actor to the start of the action leaves the code of a record as
-- it was, for every key.
pub boundary_not_signed :
    (c : Crypto) (secret_key : List ℕ) (sequence : ℕ) (timestamp_ns : ℤ)
    (a b rest data_hash previous_block_hash : String)
    → compute_hmac c secret_key sequence timestamp_ns (a ⧺ b) rest data_hash previous_block_hash
      ≡ compute_hmac c secret_key sequence timestamp_ns a (b ⧺ rest) data_hash previous_block_hash
unfolding compute_hmac
boundary_not_signed c secret_key sequence timestamp_ns a b rest data_hash previous_block_hash =
    rw (signed_bytes-shift sequence timestamp_ns a b rest data_hash previous_block_hash)
