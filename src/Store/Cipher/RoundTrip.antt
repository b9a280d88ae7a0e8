-- ===== src/Store/Cipher/RoundTrip.antt =====
-- Text that crates/nuncio-store/src/cipher.rs encrypts for a column, and decrypts again.

use nuncio.Common.{
  ℕ, ◌≤◌, ◌≡◌, ◌≢◌, refl, ap, ◌∙◌, String, false, List, [], ◌∷◌, ◌++◌, some, ok, length, take, ltb,
  length-append, arith, if_false_intro,
}
use mathlib.Core.Path.{subst}
use nuncio.Common.Text.{as_bytes}
use nuncio.Store.Host.{Host}
use nuncio.Store.Cipher.{
  encrypt_bytes, decrypt_bytes, encrypt_text_at_rest, decrypt_text_at_rest, decrypt_decoded,
  decrypted_text, valid_text, or_default, drop, nonce_len,
}

take-append : (xs ys : List ℕ) → take (length xs) (xs ++ ys) ≡ xs
take-append [] ys = refl
take-append (x ∷ xs) ys = rw (take-append xs ys)

drop-append : (xs ys : List ℕ) → drop (length xs) (xs ++ ys) ≡ ys
drop-append [] ys = refl
drop-append (x ∷ xs) ys = drop-append xs ys

-- A payload is decrypted with the nonce that was put in front of it.
decrypt_bytes-append :
    (host : Host) (key nonce payload : List ℕ) (plain : List ℕ)
    → length nonce ≡ nonce_len
    → host.aes_decrypt key nonce payload ≡ ok plain
    → decrypt_bytes host key (nonce ++ payload) ≡ ok plain
unfolding decrypt_bytes
decrypt_bytes-append host key nonce payload plain n d =
    let front : take nonce_len (nonce ++ payload) ≡ nonce =
      subst (λ k. take k (nonce ++ payload) ≡ nonce) n (take-append nonce payload) in
    let back : drop nonce_len (nonce ++ payload) ≡ payload =
      subst (λ k. drop k (nonce ++ payload) ≡ payload) n (drop-append nonce payload) in
    if_false_intro (ltb (length (nonce ++ payload)) nonce_len) _ _
      (long (length (nonce ++ payload)) (omega (arith, length-append nonce payload, n)))
      (rw (front, back, d))
  where
    long : (k : ℕ) → 12 ≤ k → ltb k 12 ≡ false
    long k h = ground arith

decrypt_stored :
    (host : Host) (key : List ℕ) (stored : String) (bytes : List ℕ)
    → stored ≢ ""
    → host.hex_decode stored ≡ some bytes
    → decrypt_text_at_rest host key stored ≡ decrypt_decoded host key (some bytes)
unfolding decrypt_text_at_rest
decrypt_stored host key String.[] bytes h e = absurd (h refl)
decrypt_stored host key (String.◌∷◌ c s) bytes h e = rw e

encrypt_bytes-append :
    (host : Host) (key nonce plain payload : List ℕ)
    → host.aes_encrypt key nonce plain ≡ ok payload
    → encrypt_bytes host key nonce plain ≡ ok (nonce ++ payload)
unfolding encrypt_bytes
encrypt_bytes-append host key nonce plain payload e = rw e

-- A text that was encrypted for a column is read back as it was, when the nonce has twelve bytes,
-- AES-256-GCM accepts the text and decrypts its own output under the same key and nonce, hex and
-- UTF-8 decode what they encoded, and the hex form of the payload is not empty.
pub encrypt_text_at_rest-roundtrip :
    (host : Host) (key nonce payload : List ℕ) (text : String)
    → length nonce ≡ nonce_len
    → host.aes_encrypt key nonce (as_bytes text) ≡ ok payload
    → host.aes_decrypt key nonce payload ≡ ok (as_bytes text)
    → host.hex_encode (nonce ++ payload) ≢ ""
    → host.hex_decode (host.hex_encode (nonce ++ payload)) ≡ some (nonce ++ payload)
    → host.from_utf8 (as_bytes text) ≡ some text
    → decrypt_text_at_rest host key (encrypt_text_at_rest host key nonce text) ≡ text
unfolding encrypt_text_at_rest decrypt_decoded decrypt_text_at_rest or_default decrypted_text
    valid_text
encrypt_text_at_rest-roundtrip host key nonce payload String.[] n e d x h u = refl
encrypt_text_at_rest-roundtrip host key nonce payload (String.◌∷◌ c s) n e d x h u =
    ap (λ m. decrypt_text_at_rest host key (host.hex_encode (or_default host m)))
      (encrypt_bytes-append host key nonce (as_bytes (String.◌∷◌ c s)) payload e)
    ∙ decrypt_stored host key _ (nonce ++ payload) x h
    ∙ ap (decrypted_text host) (decrypt_bytes-append host key nonce payload _ n d)
    ∙ ap (valid_text host) u
