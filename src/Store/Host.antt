-- ===== src/Store/Host.antt =====
-- What the store takes from its surroundings: the system clock (chrono), AES-256-GCM (aes_gcm) and
-- its random nonces, SHA-256 and HMAC (sha2, hmac), hex (hex), UTF-8 decoding (std), JSON
-- (serde_json) and the lower-casing of std.
use nuncio.Common.{ℕ, String, List, Option, Result}
use nuncio.Common.Int.{ℤ}
use nuncio.Core.Config.{AccountProtocol}

-- `now`, `now_nanos` and `random` are indexed by how often the clock or the source was read.
pub record Host : Type 0 where
  pub now : ℕ → ℤ
  pub now_nanos : ℕ → Option ℤ
  pub random : ℕ → List ℕ
  pub aes_encrypt : (key nonce plaintext : List ℕ) → Result String (List ℕ)
  pub aes_decrypt : (key nonce ciphertext : List ℕ) → Result String (List ℕ)
  pub sha256 : List ℕ → List ℕ
  pub hmac_sha256 : (key bytes : List ℕ) → Option (List ℕ)
  pub hex_encode : List ℕ → String
  pub hex_decode : String → Option (List ℕ)
  pub from_utf8 : List ℕ → Option String
  pub payload_json : (action_type : String) (target : Option String) → String
  pub protocol_json : AccountProtocol → String
  pub protocol_from_json : String → Option AccountProtocol
