-- ===== src/Store/Cipher.antt =====
-- crates/nuncio-store/src/cipher.rs: AES-256-GCM payloads with their nonce in front, and the text
-- columns of the database.
pub mod RoundTrip
use Prim.Native.String
use nuncio.Common.{
  ℕ, suc, zero, String, Bool, true, false, List, [], ◌∷◌, ◌++◌, Option, none, some, Result, ok, err,
  ◌>>=◌, map_err, if◌then◌else◌, ltb, length, take,
}
use nuncio.Common.Text.{as_bytes}
use nuncio.Store.Host.{Host}

pub data CipherError : Type 0 where
  encryption_failed decryption_failed : String → CipherError

abbrev pub nonce_len : ℕ
nonce_len = 12

-- The second half of `split_at`.
abbrev pub drop {ℓ} : {A : Type ℓ} → ℕ → List A → List A
drop zero xs = xs
drop (suc n) [] = []
drop (suc n) (x ∷ xs) = drop n xs

module _ (host : Host) where
  open host use {aes_encrypt, aes_decrypt, hex_encode, hex_decode, from_utf8}

  unfoldable pub encrypt_bytes : (key nonce plaintext : List ℕ) → Result CipherError (List ℕ)
  encrypt_bytes key nonce plaintext = do
    encrypted ← map_err encryption_failed (aes_encrypt key nonce plaintext)
    ok (nonce ++ encrypted)

  unfoldable pub decrypt_bytes : (key ciphertext : List ℕ) → Result CipherError (List ℕ)
  decrypt_bytes key ciphertext =
      if ltb (length ciphertext) nonce_len
      then err (decryption_failed "ciphertext payload too short")
      else map_err decryption_failed
          (aes_decrypt key (take nonce_len ciphertext) (drop nonce_len ciphertext))

  -- `unwrap_or_default`
  or_default : Result CipherError (List ℕ) → List ℕ
  or_default (ok bytes) = bytes
  or_default (err e) = []

  unfoldable pub encrypt_text_at_rest : (key nonce : List ℕ) → String → String
  unfolding or_default
  encrypt_text_at_rest key nonce String.[] = ""
  encrypt_text_at_rest key nonce (String.◌∷◌ c s) =
      hex_encode (or_default (encrypt_bytes key nonce (as_bytes (String.◌∷◌ c s))))

  -- The nested `if let`s: any failure gives the empty text.
  valid_text : Option String → String
  valid_text none = ""
  valid_text (some s) = s

  decrypted_text : Result CipherError (List ℕ) → String
  unfolding valid_text
  decrypted_text (err e) = ""
  decrypted_text (ok decrypted) = valid_text (from_utf8 decrypted)

  decrypt_decoded : (key : List ℕ) → Option (List ℕ) → String
  unfolding decrypted_text
  decrypt_decoded key none = ""
  decrypt_decoded key (some bytes) = decrypted_text (decrypt_bytes key bytes)

  unfoldable pub decrypt_text_at_rest : (key : List ℕ) → String → String
  unfolding decrypt_decoded
  decrypt_text_at_rest key String.[] = ""
  decrypt_text_at_rest key (String.◌∷◌ c s) = decrypt_decoded key (hex_decode (String.◌∷◌ c s))
