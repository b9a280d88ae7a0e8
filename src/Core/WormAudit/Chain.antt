-- ===== src/Core/WormAudit/Chain.antt =====
-- What `verify_worm_chain` of crates/nuncio-core/src/worm_audit.rs decides.
use nuncio.Common.{
  ℕ, ◌≡◌, refl, ◌↔◌, List, [], ◌∷◌, ◌++◌, String, Result, ok, err, >>_iff, str_eq, eq_iff, arith,
  >>=-eq-ok, Bool-cases, inl, inr, if_true, if_false, if_true_intro, err≢ok, ok-inj,
}
use mathlib.Core.Path.{subst}
use nuncio.Common.Int.{ℤ}
use nuncio.Core.WormAudit.{
  WormAuditError, Crypto, WormAuditRecord, compute_hmac, create_signed, verify_integrity,
  verify_from, verify_worm_chain,
}

module _ (c : Crypto) (secret_key : List ℕ) where
  -- The record's code is the HMAC of its other fields.
  abbrev pub IsSealed : WormAuditRecord → Type 0
  IsSealed r =
      compute_hmac c secret_key r.sequence r.timestamp_ns r.actor r.action r.data_hash
        r.previous_block_hash
      ≡ ok r.record_hmac

  -- Every record is sealed, and names the code of the record before it.
  abbrev pub IsChain : String → List WormAuditRecord → Type 0
  IsChain last_hash [] = Unit
  IsChain last_hash (r ∷ rs) =
      (r.previous_block_hash ≡ last_hash) × IsSealed r × IsChain r.record_hmac rs

  unfoldable pub last_hash_of : String → List WormAuditRecord → String
  last_hash_of last_hash [] = last_hash
  last_hash_of last_hash (r ∷ rs) = last_hash_of r.record_hmac rs

  verify_integrity_iff :
      (r : WormAuditRecord) → (verify_integrity c r secret_key ≡ ok tt) ↔ IsSealed r
  unfolding verify_integrity
  verify_integrity_iff r =
      let code =
        compute_hmac c secret_key r.sequence r.timestamp_ns r.actor r.action r.data_hash
          r.previous_block_hash in
      decided code refl
    where
      decided :
          (m : Result WormAuditError String)
          → compute_hmac c secret_key r.sequence r.timestamp_ns r.actor r.action r.data_hash
              r.previous_block_hash
            ≡ m
          → (verify_integrity c r secret_key ≡ ok tt) ↔ IsSealed r
      decided (ok code) e = (
        λ h. ground (arith, eq_iff code r.record_hmac),
        λ h. ground (arith, eq_iff code r.record_hmac),
      )
      decided (err x) e = (λ h. ground arith, λ h. ground arith)

  -- A chain is accepted exactly when each of its records is sealed and linked.
  pub verify_from_iff :
      (last_hash : String) (rs : List WormAuditRecord)
      → (verify_from c last_hash rs secret_key ≡ ok tt) ↔ IsChain last_hash rs
  unfolding verify_from
  verify_from_iff last_hash [] = (λ h. tt, λ h. refl)
  verify_from_iff last_hash (r ∷ rs) =
      let rest = verify_from_iff r.record_hmac rs in
      let here = verify_integrity_iff r in
      let both =
        >>_iff (verify_integrity c r secret_key) (verify_from c r.record_hmac rs secret_key) tt in
      elim (Bool-cases (str_eq r.previous_block_hash last_hash)) [
        | inl linked ↦ (
          λ h.
              let (a, b) = both.0 (if_true _ _ _ linked h) in
              ((eq_iff _ _).0 linked, here.0 a, rest.0 b),
          λ (l, s, t). if_true_intro _ _ _ linked (both.1 (here.1 s, rest.1 t)),
        )
        | inr broken ↦ (
          λ h. absurd (err≢ok (if_false _ _ _ broken h)),
          λ (l, s, t). cc ((eq_iff _ _).1 l, broken),
        )
      ]

  last_hash_of-append :
      (last_hash : String) (rs ts : List WormAuditRecord)
      → last_hash_of last_hash (rs ++ ts) ≡ last_hash_of (last_hash_of last_hash rs) ts
  unfolding last_hash_of
  last_hash_of-append last_hash [] ts = refl
  last_hash_of-append last_hash (r ∷ rs) ts = last_hash_of-append r.record_hmac rs ts

  -- A chain splits at any place.
  IsChain-append_iff :
      (last_hash : String) (rs ts : List WormAuditRecord)
      → IsChain last_hash (rs ++ ts)
        ↔ (IsChain last_hash rs × IsChain (last_hash_of last_hash rs) ts)
  unfolding last_hash_of
  IsChain-append_iff last_hash [] ts = (λ h. (tt, h), λ h. h.1)
  IsChain-append_iff last_hash (r ∷ rs) ts =
      let rest = IsChain-append_iff r.record_hmac rs ts in
      (
        λ (l, s, t). let (a, b) = rest.0 t in ((l, s, a), b),
        λ ((l, s, a), b). (l, s, rest.1 (a, b)),
      )

  -- A record made by create_signed is sealed, whatever it is given.
  create_signed_lem :
      (sequence : ℕ) (timestamp_ns : ℤ) (actor action : String) (data_payload : List ℕ)
      (previous_block_hash : String) (r : WormAuditRecord)
      → create_signed c secret_key sequence timestamp_ns actor action data_payload
          previous_block_hash
        ≡ ok r
      → (r.previous_block_hash ≡ previous_block_hash) × IsSealed r
  unfolding create_signed
  create_signed_lem sequence timestamp_ns actor action data_payload previous_block_hash r h =
      let (code, e, f) =
        >>=-eq-ok
          (compute_hmac c secret_key sequence timestamp_ns actor action (c.sha256 data_payload)
            previous_block_hash)
          _ h in
      subst (λ m. (m.previous_block_hash ≡ previous_block_hash) × IsSealed m) (ok-inj f) (refl, e)

-- The check of a whole chain accepts exactly the lists in which every record carries the HMAC of
-- its own fields and names the code of the record before it, the first one "GENESIS".
pub verify_worm_chain_iff :
    (c : Crypto) (secret_key : List ℕ) (records : List WormAuditRecord)
    → (verify_worm_chain c records secret_key ≡ ok tt) ↔ IsChain c secret_key "GENESIS" records
unfolding verify_worm_chain
verify_worm_chain_iff c secret_key records = verify_from_iff c secret_key "GENESIS" records

-- Appending to a verified log a record that create_signed makes from the code of the log's last
-- record ("GENESIS" for an empty log) gives a log that verifies, for any sequence number, time,
-- actor, action and payload.
pub create_signed_extends :
    (c : Crypto) (secret_key : List ℕ) (records : List WormAuditRecord) (sequence : ℕ)
    (timestamp_ns : ℤ) (actor action : String) (data_payload : List ℕ) (r : WormAuditRecord)
    → verify_worm_chain c records secret_key ≡ ok tt
    → create_signed c secret_key sequence timestamp_ns actor action data_payload
        (last_hash_of c secret_key "GENESIS" records)
      ≡ ok r
    → verify_worm_chain c (records ++ r ∷ []) secret_key ≡ ok tt
create_signed_extends c secret_key records sequence timestamp_ns actor action data_payload r h k =
    let (linked, sealed) =
      create_signed_lem c secret_key sequence timestamp_ns actor action data_payload _ r k in
    (verify_worm_chain_iff c secret_key (records ++ r ∷ [])).1 (
      (IsChain-append_iff c secret_key "GENESIS" records (r ∷ [])).1
        ((verify_worm_chain_iff c secret_key records).0 h, (linked, sealed, tt)))

-- A log from which the newest records were removed still verifies: whatever prefix of a verified
-- log remains is accepted.
pub truncation_accepted :
    (c : Crypto) (secret_key : List ℕ) (kept removed : List WormAuditRecord)
    → verify_worm_chain c (kept ++ removed) secret_key ≡ ok tt
    → verify_worm_chain c kept secret_key ≡ ok tt
truncation_accepted c secret_key kept removed h = (verify_worm_chain_iff c secret_key kept).1 (
    ((IsChain-append_iff c secret_key "GENESIS" kept removed).0
      ((verify_worm_chain_iff c secret_key (kept ++ removed)).0 h)).0)
