-- ===== src/Store/Worm/Appended.antt =====
-- What `append_worm_audit_record` of crates/nuncio-store/src/db.rs makes of the WORM audit table.
use nuncio.Common.{
  ℕ, ◌+◌, ◌≤◌, String, ◌≡◌, refl, ap, ◌∙◌, sym, List, [], ◌∷◌, ◌++◌, Option, none, some, Result, ok,
  err, last?, length, All, >>=-eq-ok, ok-inj, arith, map_err-eq-ok,
}
use nuncio.Common.Int.{ℤ, pos, ◌≤ℤ◌}
use nuncio.Common.Sort.{IsSorted, sort_by_key-eq}
use nuncio.Common.Action.{continue, ◌>>◌, >>=-Keeps}
use nuncio.Core.WormAudit.{Crypto, WormAuditRecord, create_signed, compute_hmac, verify_worm_chain}
use nuncio.Core.WormAudit.Chain.{last_hash_of, create_signed_extends}
use nuncio.Store.Database.{Database, DatabaseError, statement, outcome, select, modify}
use nuncio.Store.Database.Statements.{statement-Keeps}
use nuncio.Store.Worm.{chain_error, by_sequence, next_link, append_worm_audit_record, signed_next}

-- The sequence numbers count up from `n`.
abbrev pub Numbered : ℕ → List WormAuditRecord → Type 0
Numbered n [] = Unit
Numbered n (r ∷ rs) = (r.sequence ≡ n) × Numbered (n + 1) rs

above :
    (k n : ℕ) (rs : List WormAuditRecord)
    → k ≤ n
    → Numbered n rs
    → All (λ r. pos k ≤ℤ pos r.sequence) rs
above k n [] le h = tt
above k n (r ∷ rs) le (e, h) = (ground arith, above k (n + 1) rs (omega arith) h)

Numbered-IsSorted :
    (n : ℕ) (rs : List WormAuditRecord) → Numbered n rs → IsSorted (λ r. pos r.sequence) rs
Numbered-IsSorted n [] h = tt
Numbered-IsSorted n (r ∷ rs) (e, h) =
    (above r.sequence (n + 1) rs (omega arith) h, Numbered-IsSorted (n + 1) rs h)

by_sequence-eq : (n : ℕ) (rs : List WormAuditRecord) → Numbered n rs → by_sequence rs ≡ rs
unfolding by_sequence
by_sequence-eq n rs h = sort_by_key-eq (λ r. pos r.sequence) rs (Numbered-IsSorted n rs h)

Numbered-append :
    (n : ℕ) (rs : List WormAuditRecord) (r : WormAuditRecord)
    → Numbered n rs
    → r.sequence ≡ n + length rs
    → Numbered n (rs ++ r ∷ [])
Numbered-append n [] r h e = (omega arith, tt)
Numbered-append n (s ∷ rs) r (k, h) e = (k, Numbered-append (n + 1) rs r h (omega arith))

module _ (c : Crypto) (now_ns : ℕ → ℤ) where
  -- The table verifies, and its sequence numbers count up from 1.
  abbrev pub IsWorm : Database → Type 0
  IsWorm db =
      (verify_worm_chain c db.worm_audit_records db.worm_key ≡ ok tt)
      × Numbered 1 db.worm_audit_records

  next_link-eq :
      (key : List ℕ) (rs : List WormAuditRecord)
      → Numbered 1 rs
      → next_link (last? rs) ≡ (1 + length rs, last_hash_of c key "GENESIS" rs)
  unfolding next_link last_hash_of
  next_link-eq key [] h = refl
  next_link-eq key (r ∷ rs) h = from_last 1 r rs h
    where
      from_last :
          (n : ℕ) (r : WormAuditRecord) (rs : List WormAuditRecord)
          → Numbered n (r ∷ rs)
          → next_link (last? (r ∷ rs)) ≡ (n + length (r ∷ rs), last_hash_of c key r.record_hmac rs)
      from_last n r [] (e, h) = ap (λ k. (k, r.record_hmac)) (omega arith)
      from_last n r (s ∷ rs) (e, h) =
          from_last (n + 1) s rs h
          ∙ ap (λ k. (k, last_hash_of c key s.record_hmac rs)) (omega arith)

  create_signed-sequence :
      (key : List ℕ) (sequence : ℕ) (at : ℤ) (actor action : String) (data_payload : List ℕ)
      (prev : String) (r : WormAuditRecord)
      → create_signed c key sequence at actor action data_payload prev ≡ ok r
      → r.sequence ≡ sequence
  unfolding create_signed
  create_signed-sequence key sequence at actor action data_payload prev r h =
      let (code, e, f) =
        >>=-eq-ok (compute_hmac c key sequence at actor action (c.sha256 data_payload) prev) _ h in
      sym (ap (λ m. m.sequence) (ok-inj f))

  -- The record that was signed for the link extends the table.
  abbrev Extends : Database → WormAuditRecord → Type 0
  Extends db r = IsWorm (record db { worm_audit_records = db.worm_audit_records ++ r ∷ [] })

  create_signed-Extends :
      (db : Database) (at : ℤ) (actor action : String) (data_payload : List ℕ) (r : WormAuditRecord)
      → IsWorm db
      → create_signed c db.worm_key
          (1 + length db.worm_audit_records)
          at
          actor
          action
          data_payload
          (last_hash_of c db.worm_key "GENESIS" db.worm_audit_records)
        ≡ ok r
      → Extends db r
  create_signed-Extends db at actor action data_payload r (chain, numbered) e = (
    create_signed_extends c db.worm_key db.worm_audit_records (1 + length db.worm_audit_records) at
        actor action data_payload r chain e,
    Numbered-append 1 db.worm_audit_records r numbered
        (create_signed-sequence db.worm_key _ at actor action data_payload _ r e),
  )

  -- What follows the signing: the insertion, whose statement may fail.
  abbrev rest_of : WormAuditRecord → Database → Result DatabaseError WormAuditRecord × Database
  rest_of r =
      statement
      >> (modify (λ db. record db { worm_audit_records = db.worm_audit_records ++ r ∷ [] })
          >> select (λ db. r))

  inserted :
      (db : Database) (r : WormAuditRecord) → IsWorm db → Extends db r → IsWorm ((rest_of r db).1)
  unfolding statement
  inserted db r h k = insertion db.outcomes db h k
    where
      insertion :
          (o : List (Option String)) (db : Database)
          → IsWorm db
          → Extends db r
          → IsWorm (
              (continue
                (λ u.
                  modify (λ db. record db { worm_audit_records = db.worm_audit_records ++ r ∷ [] })
                  >> select (λ db. r))
                (outcome o db)).1)
      insertion [] db h k = k
      insertion (none ∷ o) db h k = k
      insertion (some e ∷ o) db h k = h

  signed :
      (db : Database) (m : Result DatabaseError WormAuditRecord)
      → IsWorm db
      → ((r : WormAuditRecord) → m ≡ ok r → Extends db r)
      → IsWorm ((continue rest_of (m, record db { ticks = db.ticks + 1 })).1)
  signed db (ok r) h k = inserted (record db { ticks = db.ticks + 1 }) r h (k r refl)
  signed db (err e) h k = h

  -- A WORM table that verifies and is numbered from 1 is so again after a record was appended, and
  -- when the signing or either of the statements fails.
  pub append_worm_audit_record-IsWorm :
      (actor action : String) (data_payload : List ℕ) (db : Database)
      → IsWorm db
      → IsWorm ((append_worm_audit_record c now_ns actor action data_payload db).1)
  unfolding append_worm_audit_record signed_next
  append_worm_audit_record-IsWorm actor action data_payload =
      >>=-Keeps IsWorm statement _ (statement-Keeps IsWorm (λ db o h. h)) (λ u db h.
        let link : next_link (last? (by_sequence db.worm_audit_records)) ≡ (
          1 + length db.worm_audit_records,
          last_hash_of c db.worm_key "GENESIS" db.worm_audit_records,
        ) =
          ap (λ rs. next_link (last? rs)) (by_sequence-eq 1 db.worm_audit_records (h.1))
          ∙ next_link-eq db.worm_key db.worm_audit_records (h.1) in
        rw link (
          signed db _ h (λ r e.
            create_signed-Extends db (now_ns db.ticks) actor action data_payload r h
              (map_err-eq-ok chain_error _ e))))
