-- ===== src/Rpc/Triage/OnePass.antt =====
-- The pages of `triage` in crates/nunciod/src/grpc.rs, taken together, are one pass over all messages.
use nuncio.Common.{
  ℕ, zero, suc, ◌+◌, ◌<◌, ◌≤◌, String, ◌≡◌, refl, sym, ap, ◌∙◌, Bool, true, false, inl, inr, List,
  [], ◌∷◌, ◌++◌, map, length, some, ok, All, take, drop, take-append-drop, length-take_cases,
  length-map, ltb, last?, arith,
}
use mathlib.Core.List.{map-append, append-nil, Perm}
use mathlib.Core.Path.{subst}
use nuncio.Common.Ordered.{IsDistinct, length-sort_by_text, sort_by_text-perm}
use nuncio.Core.Model.{Email}
use nuncio.Filter.Platform.{Platform}
use nuncio.Filter.Engine.{FilterEngine}
use nuncio.Store.Host.{Host}
use nuncio.Store.Database.{Database, SqlxError, MessageRow}
use nuncio.Common.Action.{continue}
use nuncio.Store.Database.Statements.{statement-quiet}
use nuncio.Store.Messages.{email_of}
use nuncio.Store.Chunk.{by_id, get_message_chunk}
use nuncio.Rpc.Triage.{
  Counts, Run, finished, chunk_size_of, progress_of, last_id_of, report_page, sent, scan_page,
  one_page, triage_loop, triage, no_counts,
}
use nuncio.Rpc.Triage.Frame.{Quiet, scan_page-Quiet}
use nuncio.Rpc.Triage.Pages.{
  remaining, Ahead, IsNamed, scan_page-Ahead, start-Ahead, last_id_of-page,
}
use nuncio.Rpc.Triage.Termination.{chunk_size_of_pos}

email_of-key :
    (host : Host) (db after : Database) (rows : List MessageRow)
    → after.storage_key ≡ db.storage_key
    → map (email_of host after) rows ≡ map (email_of host db) rows
unfolding email_of
email_of-key host db after [] e = refl
email_of-key host db after (r ∷ rows) e = rw (e, email_of-key host db after rows e) refl

last?-cons : {A : Type 0} (x y : A) (xs : List A) → last? xs ≡ some y → last? (x ∷ xs) ≡ some y
last?-cons x y [] h = cc h
last?-cons x y (z ∷ xs) h = h

-- The page that a database that answers reads.
get_message_chunk-quiet :
    (host : Host) (last_id : String) (limit : ℕ) (db : Database) (rows : List MessageRow)
    → db.outcomes ≡ []
    → by_id (remaining last_id db) ≡ rows
    → get_message_chunk host last_id limit db ≡ (ok (map (email_of host db) (take limit rows)), db)
unfolding get_message_chunk
get_message_chunk-quiet host last_id limit db rows quiet sorted =
    ap
      (continue (λ u d. (ok (map (email_of host d) (take limit (by_id (remaining last_id d)))), d)))
      (statement-quiet db quiet)
    ∙ ap (λ r. (ok (map (email_of host db) (take limit r)), db)) sorted

module _ (p : Platform) (host : Host) (engine : FilterEngine p) (show_sqlx : SqlxError → String)
    (chunk_size : ℕ) where
  -- One pass over the messages of rows.
  abbrev pub one_pass : List MessageRow → Counts → Database → Counts × Database
  one_pass rows c db =
      scan_page p host engine show_sqlx chunk_size (map (email_of host db) rows) c db

  scan_page-append :
      (xs ys : List Email) (c : Counts) (db : Database)
      → scan_page p host engine show_sqlx chunk_size (xs ++ ys) c db
        ≡ scan_page p host engine show_sqlx chunk_size ys
            ((scan_page p host engine show_sqlx chunk_size xs c db).0)
            ((scan_page p host engine show_sqlx chunk_size xs c db).1)
  unfolding scan_page
  scan_page-append [] ys c db = refl
  scan_page-append (x ∷ xs) ys c db = scan_page-append xs ys _ _

  -- The first rows of a pass, and then the others.
  one_pass-append :
      (xs ys : List MessageRow) (c : Counts) (db : Database)
      → Quiet p host engine show_sqlx chunk_size db.storage_key db
      → one_pass (xs ++ ys) c db ≡ one_pass ys (one_pass xs c db).0 (one_pass xs c db).1
  one_pass-append xs ys c db quiet =
      ap (λ es. scan_page p host engine show_sqlx chunk_size es c db)
        (map-append (email_of host db) xs ys)
      ∙ scan_page-append (map (email_of host db) xs) (map (email_of host db) ys) c db
      ∙ ap
          (λ es.
            scan_page p host engine show_sqlx chunk_size es ((one_pass xs c db).0)
              ((one_pass xs c db).1))
          (sym (
            email_of-key host db (one_pass xs c db).1 ys (
              (scan_page-Quiet p host engine show_sqlx chunk_size db.storage_key
                (map (email_of host db) xs) c db quiet).1)))

  -- The run finished where the pass ends, and its last item says so.
  abbrev pub Whole : Counts × Database → Run → Type 0
  Whole (c, db) run =
      (run.ending ≡ finished)
      × (run.db ≡ db)
      × ((last_id : String) × (last? run.stream ≡ some (ok (progress_of c last_id true))))

  report_page-Whole :
      (c : Counts) (last_id : String) (done : Bool) (hears : ℕ) (db : Database) (next : ℕ → Run)
      (o : Counts × Database)
      → (done ≡ true → (c, db) ≡ o)
      → (done ≡ false → Whole o (next hears))
      → Whole o (report_page (progress_of c last_id done) (suc hears) db next)
  unfolding report_page progress_of sent
  report_page-Whole c last_id true hears db next o e k =
      subst (λ o. Whole o (report_page (progress_of c last_id true) (suc hears) db next)) (e refl)
        (refl, refl, (last_id, refl))
  report_page-Whole c last_id false hears db next o e k =
      let (ended, same, (l, last)) = k refl in
      (ended, same, (l, last?-cons _ _ (next hears).stream last))

  module _ (sized : 1 ≤ chunk_size) where
    abbrev WholeWithin : ℕ → Type 0
    WholeWithin fuel =
        (hears : ℕ) (last_id : String) (rows : List MessageRow) (c : Counts) (db : Database)
        → Ahead last_id rows db
        → db.outcomes ≡ []
        → length rows < fuel
        → fuel ≤ hears
        → Whole (one_pass rows c db)
            (triage_loop p host engine show_sqlx chunk_size fuel hears last_id c db)

    page-Whole :
        (fuel : ℕ)
        → WholeWithin fuel
        → (hears : ℕ) (last_id : String) (page rest : List MessageRow) (c : Counts) (db : Database)
        → Ahead last_id (page ++ rest) db
        → db.outcomes ≡ []
        → (ltb (length page) chunk_size ≡ true → rest ≡ [])
        → (ltb (length page) chunk_size ≡ false → length rest < fuel)
        → fuel ≤ hears
        → Whole (one_pass (page ++ rest) c db) (
            one_page p host engine show_sqlx chunk_size
              (triage_loop p host engine show_sqlx chunk_size fuel)
              (suc hears)
              last_id
              c
              (ok (map (email_of host db) page), db))
    unfolding one_page scan_page
    page-Whole fuel next hears last_id [] rest c db ahead quiet whole short heard =
        report_page-Whole c _ _ hears db _ (one_pass rest c db)
          (λ more. ap (λ r. one_pass r c db) (sym (whole more))) (λ more. absurd (ground arith))
    page-Whole fuel next hears last_id (x ∷ xs) rest c db ahead quiet whole short heard =
        let count = length-map (x ∷ xs) (email_of host db) in
        let (still, kept) =
          scan_page-Quiet p host engine show_sqlx chunk_size db.storage_key
            (map (email_of host db) (x ∷ xs)) c db (quiet, refl) in
        report_page-Whole ((one_pass (x ∷ xs) c db).0)
          (last_id_of last_id (last? (map (email_of host db) (x ∷ xs))))
          (ltb (length (map (email_of host db) (x ∷ xs))) chunk_size) hears
          ((one_pass (x ∷ xs) c db).1)
          (λ n.
            triage_loop p host engine show_sqlx chunk_size fuel n
              (last_id_of last_id (last? (map (email_of host db) (x ∷ xs))))
              ((one_pass (x ∷ xs) c db).0) ((one_pass (x ∷ xs) c db).1))
          (one_pass (x ∷ (xs ++ rest)) c db)
          (λ more.
            ap (λ r. one_pass (x ∷ r) c db)
              (sym (
                ap (λ r. xs ++ r) (whole (ap (λ k. ltb k chunk_size) (sym count) ∙ more))
                ∙ append-nil xs)))
          (λ more.
            subst
              (λ o. Whole o (
                triage_loop p host engine show_sqlx chunk_size fuel hears
                  (last_id_of last_id (last? (map (email_of host db) (x ∷ xs))))
                  ((one_pass (x ∷ xs) c db).0) ((one_pass (x ∷ xs) c db).1)))
              (sym (one_pass-append (x ∷ xs) rest c db (quiet, refl)))
              (subst
                (λ l. Whole (one_pass rest (one_pass (x ∷ xs) c db).0 (one_pass (x ∷ xs) c db).1) (
                  triage_loop p host engine show_sqlx chunk_size fuel hears l
                    ((one_pass (x ∷ xs) c db).0) ((one_pass (x ∷ xs) c db).1)))
                (sym (last_id_of-page host db last_id x xs))
                (next hears _ rest _ _
                  (scan_page-Ahead p host engine show_sqlx chunk_size last_id x xs rest c db ahead)
                  still (short (ap (λ k. ltb k chunk_size) (sym count) ∙ more)) heard)))

    triage_loop-Whole : (fuel : ℕ) → WholeWithin fuel
    unfolding triage_loop
    triage_loop-Whole zero hears last_id rows c db ahead quiet small heard =
        absurd (omega (arith, small))
    triage_loop-Whole (suc fuel) zero last_id rows c db ahead quiet small heard =
        absurd (omega (arith, heard))
    triage_loop-Whole (suc fuel) (suc hears) last_id rows c db ahead quiet small heard =
        let (distinct, named, sorted) = ahead in
        let split = take-append-drop chunk_size rows in
        subst
          (λ o. Whole (one_pass rows c db) (
            one_page p host engine show_sqlx chunk_size
              (triage_loop p host engine show_sqlx chunk_size fuel) (suc hears) last_id c o))
          (sym (get_message_chunk-quiet host last_id chunk_size db rows quiet sorted))
          (subst
            (λ r. Whole (one_pass r c db) (
              one_page p host engine show_sqlx chunk_size
                (triage_loop p host engine show_sqlx chunk_size fuel) (suc hears) last_id c
                (ok (map (email_of host db) (take chunk_size rows)), db)))
            split
            (page-Whole fuel (triage_loop-Whole fuel) hears last_id (take chunk_size rows)
              (drop chunk_size rows) c db (subst (λ r. Ahead last_id r db) (sym split) ahead) quiet
              last_page shorter (omega (arith, heard))))
      where
        last_page :
            ltb (length (take chunk_size rows)) chunk_size ≡ true → drop chunk_size rows ≡ []
        last_page done = elim (length-take_cases chunk_size rows) [
          | inl (t, d) ↦ absurd (ground arith)
          | inr (t, e, d) ↦ d
        ]

        shorter :
            ltb (length (take chunk_size rows)) chunk_size ≡ false
            → length (drop chunk_size rows) < fuel
        shorter more = elim (length-take_cases chunk_size rows) [
          | inl (t, d) ↦ omega (arith, d, small, sized)
          | inr (t, e, d) ↦ absurd (ground arith)
        ]

-- As long as the database answers and the receiver listens, and provided that the ids of the messages
-- differ and none is empty, the worker, for every page size, leaves the database that one pass of the
-- filters over all stored messages in the order of their ids leaves, each visited once, and its last
-- item has the counts of that pass and says that the scan is done.
pub triage-one_pass :
    (p : Platform) (host : Host) (engine : FilterEngine p) (show_sqlx : SqlxError → String)
    (requested hears : ℕ) (db : Database)
    → IsDistinct (λ r. r.id) db.messages
    → All IsNamed db.messages
    → db.outcomes ≡ []
    → length db.messages + 1 ≤ hears
    → Perm (by_id db.messages) db.messages
      × Whole p host engine show_sqlx
          (chunk_size_of requested)
          (one_pass p host engine show_sqlx
            (chunk_size_of requested)
            (by_id db.messages)
            no_counts
            db)
          (triage p host engine show_sqlx requested hears db)
unfolding triage by_id
triage-one_pass p host engine show_sqlx requested hears db distinct named quiet heard = (
  sort_by_text-perm (λ r. r.id) db.messages,
  triage_loop-Whole p host engine show_sqlx (chunk_size_of requested) (chunk_size_of_pos requested)
      (length db.messages + 1) hears "" (by_id db.messages) no_counts db
      (start-Ahead db distinct named) quiet
      (omega (arith, length-sort_by_text (λ r. r.id) db.messages)) heard,
)
