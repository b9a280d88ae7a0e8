-- ===== src/Store/Vault/Tests.antt =====
-- A run of the key life cycle on an empty vault that refuses the first call.
use nuncio.Common.{ℕ, ◌≡◌, refl, String, List, [], ◌∷◌, Option, none, some, Result, ok, err}
use nuncio.Common.Text.{decimal}
use nuncio.Store.Tests.{hex, unhex}
use nuncio.Store.Vault.{Vault, KeySource, get_or_create_key_bytes}
use nuncio.Store.Vault.Keys.{KeyOutcome, get_or_create_key_bytes_lem}

abbrev decoded : Option (List ℕ) → Result String (List ℕ)
decoded none = err "odd length"
decoded (some bytes) = ok bytes

abbrev source : KeySource
source = record {
  hex_encode = hex;
  hex_decode = λ text. decoded (unhex text);
  fill_bytes = λ len. 42 ∷ 7 ∷ [];
}

abbrev empty : Vault
empty = record { storage = []; refusals = none ∷ [] }

codec : source.hex_decode (source.hex_encode (42 ∷ 7 ∷ [])) ≡ ok (42 ∷ 7 ∷ [])
unfolding decimal
codec = refl

get_or_create_key_bytes_lem_example :
    KeyOutcome source "worm-audit-hmac-key" empty
      (get_or_create_key_bytes source "worm-audit-hmac-key" 2 empty)
get_or_create_key_bytes_lem_example =
    get_or_create_key_bytes_lem source "worm-audit-hmac-key" 2 codec empty
