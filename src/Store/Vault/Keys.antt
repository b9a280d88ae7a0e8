-- ===== src/Store/Vault/Keys.antt =====
-- The life of a key of `get_or_create_key_bytes` in crates/nuncio-store/src/vault.rs.
use nuncio.Common.{
  ℕ, String, ◌≡◌, ◌≢◌, refl, ap, ◌∙◌, inl, inr, List, [], Option, none, some, Result, ok, err,
  map_err,
}
use nuncio.Common.Text.{◌⧺◌}
use nuncio.Store.Vault.{
  Vault, VaultError, storage_failed, not_found, lookup, refusal, access, found, get_secret,
  KeySource, key_or_create, get_or_create_key_bytes,
}
use nuncio.Store.Vault.Secrets.{set_secret-cases, get_secret-cases}

module _ (source : KeySource) (account : String) where
  -- What the vault holds for a key gives those bytes.
  abbrev pub Provides : List ℕ → Vault → Type 0
  Provides bytes v =
      (text : String) × (lookup account v.storage ≡ some text) × (source.hex_decode text ≡ ok bytes)

  unchanged :
      (bytes : List ℕ) (len : ℕ) (v : Vault)
      → Provides bytes v
      → get_or_create_key_bytes source account len (record v { refusals = [] })
        ≡ (ok bytes, record v { refusals = [] })
  unfolding get_or_create_key_bytes key_or_create get_secret access refusal found
  unchanged bytes len v (text, held, decoded) = rw (held, decoded) refl

  -- The key was obtained, and is the same ever after.
  abbrev pub Obtained : Vault → List ℕ → Vault → Type 0
  Obtained v bytes w =
      ((len : ℕ)
        → get_or_create_key_bytes source account len (record w { refusals = [] })
          ≡ (ok bytes, record w { refusals = [] }))
      × ((k : String) → k ≢ account → lookup k w.storage ≡ lookup k v.storage)

  abbrev pub KeyOutcome : Vault → Result VaultError (List ℕ) × Vault → Type 0
  KeyOutcome v (ok bytes, w) = Obtained v bytes w
  KeyOutcome v (err e, w) = w.storage ≡ v.storage

  module _ (len : ℕ)
      (codec : source.hex_decode (source.hex_encode (source.fill_bytes len))
        ≡ ok (source.fill_bytes len)) where
    -- The secret was found: it is decoded.
    loaded :
        (v w : Vault) (text : String)
        → w.storage ≡ v.storage
        → lookup account v.storage ≡ some text
        → (r : Result String (List ℕ)) → source.hex_decode text ≡ r
        → KeyOutcome v (
          map_err (λ e. storage_failed ("corrupt key material for '" ⧺ account ⧺ "': " ⧺ e)) r,
          w,
        )
    loaded v w text same held (ok bytes) decoded = (
      λ n. unchanged bytes n w (text, ap (lookup account) same ∙ held, decoded),
      λ k differs. ap (lookup k) same,
    )
    loaded v w text same held (err e) decoded = same

    -- There was none: new bytes are written.
    created :
        (v w : Vault)
        → w.storage ≡ v.storage
        → KeyOutcome v (key_or_create source account len (err (not_found account), w))
    unfolding key_or_create
    created v w same =
        let bytes = source.fill_bytes len in
        let (u, c) = set_secret-cases account (source.hex_encode bytes) w in
        elim c [
          | inl (e, (held, others)) ↦ rw e (
            λ n. unchanged bytes n u (source.hex_encode bytes, held, codec),
            λ k differs. others k differs ∙ ap (lookup k) same,
          )
          | inr (x, e, kept) ↦ rw e (kept ∙ same)
        ]

    looked_up :
        (v w : Vault) (o : Option String)
        → w.storage ≡ v.storage
        → lookup account v.storage ≡ o
        → KeyOutcome v (key_or_create source account len (found account o, w))
    unfolding found key_or_create
    looked_up v w (some text) same held = loaded v w text same held (source.hex_decode text) refl
    looked_up v w none same held = created v w same

    -- When a key is obtained, loaded or newly made, every later call that is not refused obtains the
    -- same bytes, whatever length it asks for, and no other secret has changed; when it is not
    -- obtained, no secret has changed. The codec is taken to decode
    -- the bytes that it encodes.
    pub get_or_create_key_bytes_lem :
        (v : Vault) → KeyOutcome v (get_or_create_key_bytes source account len v)
    unfolding get_or_create_key_bytes key_or_create
    get_or_create_key_bytes_lem v =
        let (w, same, c) = get_secret-cases account v in
        elim c [
          | inl e ↦ rw e (looked_up v w (lookup account v.storage) same refl)
          | inr (x, e) ↦ rw e same
        ]
