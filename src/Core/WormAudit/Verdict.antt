-- ===== src/Core/WormAudit/Verdict.antt =====
-- Where `verify_worm_chain` of crates/nuncio-core/src/worm_audit.rs stops, and why.
use nuncio.Common.{
  ℕ, String, ◌≡◌, refl, ap, sym, ◌∙◌, List, [], ◌∷◌, ◌++◌, Result, ok, err, ◌>>◌, str_eq, eq_iff,
  Bool-cases, inl, inr, ◌⊎◌, ok-inj,
}
use nuncio.Core.WormAudit.{
  WormAuditError, tampering_detected, signing_error, Crypto, WormAuditRecord, compute_hmac, signing,
  signed_bytes, verify_integrity, verify_from,
}
use nuncio.Core.WormAudit.Chain.{IsSealed, IsChain, last_hash_of}

module _ (c : Crypto) (secret_key : List ℕ) where
  abbrev hmac_of : WormAuditRecord → Result WormAuditError String
  hmac_of r =
      compute_hmac c secret_key r.sequence r.timestamp_ns r.actor r.action r.data_hash
        r.previous_block_hash

  -- The records before some record are a chain, and of this one something holds.
  abbrev pub Stops : String → List WormAuditRecord → (String → WormAuditRecord → Type 0) → Type 0
  Stops last_hash rs P =
      (before : List WormAuditRecord) × (r : WormAuditRecord) × (after : List WormAuditRecord) × (rs
        ≡ before ++ r ∷ after)
      × IsChain c secret_key last_hash before
      × P (last_hash_of c secret_key last_hash before) r

  -- The record has the sequence number, and is not linked or not sealed.
  abbrev pub Breaks : ℕ → String → WormAuditRecord → Type 0
  Breaks sequence last_hash r =
      (r.sequence ≡ sequence) × (r.previous_block_hash ≡ last_hash → IsSealed c secret_key r → ⊥)

  -- The code of the record cannot be computed.
  abbrev pub Refuses : String → String → WormAuditRecord → Type 0
  Refuses e last_hash r = hmac_of r ≡ err (signing_error e)

  abbrev pub Verdict : String → List WormAuditRecord → Result WormAuditError (Unit {0}) → Type 0
  Verdict last_hash rs (ok u) = IsChain c secret_key last_hash rs
  Verdict last_hash rs (err (tampering_detected sequence expected actual)) =
      Stops last_hash rs (Breaks sequence)
  Verdict last_hash rs (err (signing_error e)) = Stops last_hash rs (Refuses e)

  -- What the check of one record says.
  abbrev Judged : WormAuditRecord → Result WormAuditError (Unit {0}) → Type 0
  Judged r (ok u) = IsSealed c secret_key r
  Judged r (err (tampering_detected sequence expected actual)) =
      (r.sequence ≡ sequence) × (IsSealed c secret_key r → ⊥)
  Judged r (err (signing_error e)) = hmac_of r ≡ err (signing_error e)

  hmac-cases :
      (r : WormAuditRecord)
      → ((code : String) × (hmac_of r ≡ ok code))
        ⊎ ((e : String) × (hmac_of r ≡ err (signing_error e)))
  unfolding compute_hmac signing
  hmac-cases r = told (
      c.hmac secret_key
        (signed_bytes r.sequence r.timestamp_ns r.actor r.action r.data_hash r.previous_block_hash))
    where
      told :
          (m : Result String String)
          → ((code : String) × (signing c m ≡ ok code))
            ⊎ ((e : String) × (signing c m ≡ err (signing_error e)))
      told (ok code) = inl (code, refl)
      told (err e) = inr (e, refl)

  verify_integrity-Judged : (r : WormAuditRecord) → Judged r (verify_integrity c r secret_key)
  unfolding verify_integrity
  verify_integrity-Judged r = elim (hmac-cases r) [
    | inr (e, refused) ↦ rw refused refused
    | inl (code, e) ↦ rw e (elim (Bool-cases (str_eq code r.record_hmac)) [
      | inl same ↦ rw same (e ∙ ap ok ((eq_iff _ _).0 same))
      | inr apart ↦ rw apart (refl, λ s. cc ((eq_iff _ _).1 (ok-inj (sym e ∙ s)), apart))
    ])
  ]

  -- One record in front of what is known of the rest.
  linked-Verdict :
      (last_hash : String) (r : WormAuditRecord) (rs : List WormAuditRecord)
      (m rest : Result WormAuditError (Unit {0}))
      → r.previous_block_hash ≡ last_hash
      → Judged r m
      → Verdict r.record_hmac rs rest
      → Verdict last_hash (r ∷ rs) (m >> rest)
  unfolding last_hash_of
  linked-Verdict last_hash r rs (ok u) (ok v) l s h = (l, s, h)
  linked-Verdict last_hash r rs (ok u) (err (tampering_detected n a b)) l s
        (before, x, after, e, chain, h) =
      (r ∷ before, x, after, ap (λ xs. r ∷ xs) e, (l, s, chain), h)
  linked-Verdict last_hash r rs (ok u) (err (signing_error x)) l s (before, y, after, e, chain, h) =
      (r ∷ before, y, after, ap (λ xs. r ∷ xs) e, (l, s, chain), h)
  linked-Verdict last_hash r rs (err (tampering_detected n a b)) rest l (e, broken) h =
      ([], r, rs, refl, tt, (e, λ k. broken))
  linked-Verdict last_hash r rs (err (signing_error x)) rest l s h = ([], r, rs, refl, tt, s)

  pub verify_from-Verdict :
      (last_hash : String) (rs : List WormAuditRecord)
      → Verdict last_hash rs (verify_from c last_hash rs secret_key)
  unfolding verify_from last_hash_of
  verify_from-Verdict last_hash [] = tt
  verify_from-Verdict last_hash (r ∷ rs) =
      elim (Bool-cases (str_eq r.previous_block_hash last_hash)) [
        | inl same ↦ rw same (
            linked-Verdict last_hash r rs _ _ ((eq_iff _ _).0 same) (verify_integrity-Judged r)
              (verify_from-Verdict r.record_hmac rs))
        | inr broken ↦ rw broken ([], r, rs, refl, tt, (refl, λ l s. cc ((eq_iff _ _).1 l, broken)))
      ]
