-- ===== src/Rpc/Triage/Termination.antt =====
-- The loop of `triage` in crates/nunciod/src/grpc.rs ends.
use nuncio.Common.{
  ℕ, zero, suc, ◌+◌, ◌<◌, ◌≤◌, String, ◌≡◌, ◌≢◌, refl, sym, ap, ◌∙◌, Bool, true, false, inl, inr,
  List, [], ◌∷◌, ◌++◌, map, length, Option, ok, All, take, drop, take-append-drop,
  length-take_cases, length-map, ltb, arith,
}
use mathlib.Core.Path.{subst}
use nuncio.Common.Ordered.{IsDistinct, length-sort_by_text}
use nuncio.Filter.Platform.{Platform}
use nuncio.Filter.Engine.{FilterEngine}
use nuncio.Store.Host.{Host}
use nuncio.Store.Database.{Database, SqlxError, MessageRow}
use nuncio.Store.Database.Statements.{statement-cases}
use nuncio.Store.Messages.{email_of}
use nuncio.Store.Chunk.{by_id, get_message_chunk}
use nuncio.Rpc.Triage.{
  Counts, Run, exhausted, chunk_size_of, progress_of, report_page, sent, fail_scan, scan_page,
  one_page, triage_loop, triage, no_counts,
}
use nuncio.Rpc.Triage.Pages.{Ahead, IsNamed, scan_page-Ahead, start-Ahead, last_id_of-page}

-- A run that came to an end of its own.
abbrev pub HasEnded : Run → Type 0
HasEnded run = run.ending ≢ exhausted

fail_scan-HasEnded : (e : String) (hears : ℕ) (db : Database) → HasEnded (fail_scan e hears db)
unfolding fail_scan
fail_scan-HasEnded e zero db h = cc h
fail_scan-HasEnded e (suc hears) db h = cc h

-- The last page ends the run; another one hands it on.
report_page-HasEnded :
    (c : Counts) (last_id : String) (done : Bool) (hears : ℕ) (db : Database) (next : ℕ → Run)
    → (done ≡ false → (n : ℕ) → HasEnded (next n))
    → HasEnded (report_page (progress_of c last_id done) hears db next)
unfolding report_page progress_of sent
report_page-HasEnded c last_id done zero db next k h = cc h
report_page-HasEnded c last_id true (suc hears) db next k h = cc h
report_page-HasEnded c last_id false (suc hears) db next k h = k refl hears h

module _ (p : Platform) (host : Host) (engine : FilterEngine p) (show_sqlx : SqlxError → String)
    (chunk_size : ℕ) (sized : 1 ≤ chunk_size) where
  abbrev EndsWithin : ℕ → Type 0
  EndsWithin fuel =
      (hears : ℕ) (last_id : String) (rows : List MessageRow) (c : Counts) (db : Database)
      → Ahead last_id rows db
      → length rows < fuel
      → HasEnded (triage_loop p host engine show_sqlx chunk_size fuel hears last_id c db)

  -- A page that was read, with what is ahead of it and after it.
  page-HasEnded :
      (fuel : ℕ)
      → EndsWithin fuel
      → (hears : ℕ) (last_id : String) (page rest : List MessageRow) (c : Counts) (db : Database)
      → Ahead last_id (page ++ rest) db
      → (ltb (length page) chunk_size ≡ false → length rest < fuel)
      → HasEnded (
          one_page p host engine show_sqlx chunk_size
            (triage_loop p host engine show_sqlx chunk_size fuel)
            hears
            last_id
            c
            (ok (map (email_of host db) page), db))
  unfolding one_page
  page-HasEnded fuel next hears last_id [] rest c db ahead short =
      report_page-HasEnded _ _ _ hears _ _
        (λ more n. let none_done : ltb 0 chunk_size ≡ false = more in absurd (ground arith))
  page-HasEnded fuel next hears last_id (x ∷ xs) rest c db ahead short =
      report_page-HasEnded _ _ _ hears _ _ (λ more n.
        subst
          (λ l. HasEnded (
            triage_loop p host engine show_sqlx chunk_size fuel n l
              ((scan_page p host engine show_sqlx chunk_size (map (email_of host db) (x ∷ xs)) c
                db).0)
              ((scan_page p host engine show_sqlx chunk_size (map (email_of host db) (x ∷ xs)) c
                db).1)))
          (sym (last_id_of-page host db last_id x xs))
          (next n _ rest _ _
            (scan_page-Ahead p host engine show_sqlx chunk_size last_id x xs rest c db ahead)
            (short
              (ap (λ k. ltb k chunk_size) (sym (length-map (x ∷ xs) (email_of host db))) ∙ more))))

  triage_loop-HasEnded : (fuel : ℕ) → EndsWithin fuel
  unfolding triage_loop get_message_chunk one_page
  triage_loop-HasEnded zero hears last_id rows c db ahead small = absurd (omega (arith, small))
  triage_loop-HasEnded (suc fuel) hears last_id rows c db ahead small =
      let (distinct, named, sorted) = ahead in
      let (o, answer) = statement-cases db in
      elim answer [
        | inl e ↦ rw (e, sorted) (read o (triage_loop-HasEnded fuel))
        | inr (x, e) ↦ rw e (fail_scan-HasEnded _ hears (record db { outcomes = o }))
      ]
    where
      shorter :
          ltb (length (take chunk_size rows)) chunk_size ≡ false
          → length (drop chunk_size rows) < fuel
      shorter more = elim (length-take_cases chunk_size rows) [
        | inl (t, d) ↦ omega (arith, d, small, sized)
        | inr (t, e, d) ↦ absurd (ground arith)
      ]

      read :
          (o : List (Option String))
          → EndsWithin fuel
          → HasEnded (
              one_page p host engine show_sqlx chunk_size
                (triage_loop p host engine show_sqlx chunk_size fuel)
                hears
                last_id
                c
                (
                  ok (map (email_of host (record db { outcomes = o })) (take chunk_size rows)),
                  record db { outcomes = o },
                ))
      read o next =
          page-HasEnded fuel next hears last_id (take chunk_size rows) (drop chunk_size rows) c
            (record db { outcomes = o })
            (subst (λ r. Ahead last_id r db) (sym (take-append-drop chunk_size rows)) ahead) shorter

pub chunk_size_of_pos : (requested : ℕ) → 1 ≤ chunk_size_of requested
unfolding chunk_size_of
chunk_size_of_pos requested = ground arith

-- Whatever page size is requested, whenever the receiver stops listening and whichever statements of
-- the database fail, the worker ends by itself, within one round for every stored message and one
-- more, provided that the ids of the messages differ and none is empty.
pub triage-HasEnded :
    (p : Platform) (host : Host) (engine : FilterEngine p) (show_sqlx : SqlxError → String)
    (requested hears : ℕ) (db : Database)
    → IsDistinct (λ r. r.id) db.messages
    → All IsNamed db.messages
    → HasEnded (triage p host engine show_sqlx requested hears db)
unfolding triage by_id
triage-HasEnded p host engine show_sqlx requested hears db distinct named =
    triage_loop-HasEnded p host engine show_sqlx (chunk_size_of requested)
      (chunk_size_of_pos requested) (length db.messages + 1) hears "" (by_id db.messages) no_counts
      db (start-Ahead db distinct named)
      (omega (arith, length-sort_by_text (λ r. r.id) db.messages))
