-- ===== src/Rpc/Triage/Pages.antt =====
-- What is still ahead of the worker of `triage` in crates/nunciod/src/grpc.rs, before and after a page.
use nuncio.Common.{
  last?, ℕ, String, ◌≡◌, refl, sym, ap, ◌∙◌, Bool, true, false, List, [], ◌∷◌, ◌++◌, map, str_eq,
  keep, All, All-map, All-kept, keep-keep, if◌then◌else◌,
}
use mathlib.Core.Path.{subst}
use nuncio.Common.Order.{str_lt, str_lt_trans}
use nuncio.Common.Ordered.{
  IsDistinct, IsAscending, sort_by_text-IsAscending, keep-IsDistinct, All-keep, All-sort,
  keep-sort_by_text, last_of, keep-above, last_of-top, IsAscending-front, All-last_of, All-front,
}
use nuncio.Filter.Platform.{Platform}
use nuncio.Filter.Engine.{FilterEngine}
use nuncio.Store.Host.{Host}
use nuncio.Store.Database.{Database, SqlxError, MessageRow}
use nuncio.Store.Messages.{email_of}
use nuncio.Store.Chunk.{is_after, by_id}
use nuncio.Rpc.Triage.{Counts, last_id_of, scan_page}
use nuncio.Rpc.Triage.Frame.{scan_page-selects}

-- The id of a message is not empty.
abbrev pub IsNamed : MessageRow → Type 0
IsNamed r = str_eq r.id "" ≡ false

abbrev pub remaining : String → Database → List MessageRow
remaining last_id db = keep (is_after last_id) db.messages

-- The messages ahead, by id: their ids differ and are not empty.
abbrev pub Ahead : String → List MessageRow → Database → Type 0
Ahead last_id rows db =
    IsDistinct (λ r. r.id) (remaining last_id db)
    × All IsNamed (remaining last_id db)
    × (by_id (remaining last_id db) ≡ rows)

is_after-named :
    (l : String) (rows : List MessageRow)
    → str_eq l "" ≡ false
    → keep (is_after l) rows ≡ keep (λ r. str_lt l r.id) rows
unfolding is_after
is_after-named l rows e = ap (λ b. keep (λ r. if b then true else str_lt l r.id) rows) e

-- What is above an id that is ahead is ahead.
is_after_trans :
    (last_id : String) (m r : MessageRow)
    → is_after last_id m ≡ true
    → str_lt m.id r.id ≡ true
    → is_after last_id r ≡ true
unfolding is_after
is_after_trans last_id m r h k = chosen (str_eq last_id "") h
  where
    chosen :
        (b : Bool)
        → (if b then true else str_lt last_id m.id) ≡ true
        → (if b then true else str_lt last_id r.id) ≡ true
    chosen true h = refl
    chosen false h = str_lt_trans last_id m.id r.id h k

module _ (p : Platform) (host : Host) (engine : FilterEngine p) (show_sqlx : SqlxError → String)
    (chunk_size : ℕ) where
  -- After a page, what is ahead is what was ahead without the page.
  pub scan_page-Ahead :
      (last_id : String) (x : MessageRow) (xs ys : List MessageRow) (c : Counts) (db : Database)
      → Ahead last_id (x ∷ (xs ++ ys)) db
      → Ahead
          (last_of (λ r. r.id) x xs).id
          ys
          ((scan_page p host engine show_sqlx chunk_size (map (email_of host db) (x ∷ xs)) c db).1)
  unfolding by_id email_of
  scan_page-Ahead last_id x xs ys c db (distinct, named, sorted) =
      let rows = remaining last_id db in
      let m = last_of (λ r. r.id) x xs in
      let q : String → Bool = λ i. str_lt m.id i in
      let ascending : IsAscending (λ r. r.id) (x ∷ (xs ++ ys)) =
        subst (IsAscending (λ r. r.id)) sorted
          (sort_by_text-IsAscending (λ r. r.id) rows distinct) in
      let m_named : IsNamed m =
        All-last_of (λ r. r.id) IsNamed x xs
          (All-front (λ r. r.id) IsNamed (x ∷ xs) ys
            (subst (All IsNamed) sorted (All-sort (λ r. r.id) IsNamed rows named))) in
      let m_ahead : is_after last_id m ≡ true =
        All-last_of (λ r. r.id) (λ r. is_after last_id r ≡ true) x xs
          (All-front (λ r. r.id) (λ r. is_after last_id r ≡ true) (x ∷ xs) ys
            (subst (All (λ r. is_after last_id r ≡ true)) sorted (
              All-sort (λ r. r.id) (λ r. is_after last_id r ≡ true) rows
                (All-kept (is_after last_id) db.messages)))) in
      let same : remaining m.id (
            (scan_page p host engine show_sqlx chunk_size (map (email_of host db) (x ∷ xs)) c db).1)
          ≡ keep (λ r. q r.id) rows =
        is_after-named m.id _ m_named
        ∙ scan_page-selects p host engine show_sqlx chunk_size q (keep (λ r. q r.id) db.messages)
            (map (email_of host db) (x ∷ xs)) c db
            (All-map (λ e. q e.id ≡ false) (email_of host db) (x ∷ xs)
              (last_of-top (λ r. r.id) x xs (IsAscending-front (λ r. r.id) (x ∷ xs) ys ascending)))
            refl
        ∙ sym (
            keep-keep (is_after last_id) (λ r. q r.id)
              (λ r above. is_after_trans last_id m r m_ahead above) db.messages) in
      rw same (
        keep-IsDistinct (λ r. r.id) (λ r. q r.id) rows distinct,
        All-keep (λ r. r.id) IsNamed (λ r. q r.id) rows named,
        sym (keep-sort_by_text (λ r. r.id) (λ r. q r.id) rows distinct)
            ∙ ap (keep (λ r. q r.id)) sorted
            ∙ keep-above (λ r. r.id) x xs ys ascending,
      )

-- At the start, everything is ahead.
pub start-Ahead :
    (db : Database)
    → IsDistinct (λ r. r.id) db.messages
    → All IsNamed db.messages
    → Ahead "" (by_id db.messages) db
unfolding is_after
start-Ahead db distinct named =
    let all : remaining "" db ≡ db.messages = keep-true db.messages in
    rw all (distinct, named, refl)
  where
    keep-true : (rows : List MessageRow) → keep (is_after "") rows ≡ rows
    keep-true [] = refl
    keep-true (r ∷ rows) = ap (λ l. r ∷ l) (keep-true rows)

-- The id that follows a page is that of its last message.
pub last_id_of-page :
    (host : Host) (db : Database) (last_id : String) (x : MessageRow) (xs : List MessageRow)
    → last_id_of last_id (last? (map (email_of host db) (x ∷ xs))) ≡ (last_of (λ r. r.id) x xs).id
unfolding last_id_of email_of
last_id_of-page host db last_id x [] = refl
last_id_of-page host db last_id x (y ∷ ys) = last_id_of-page host db last_id y ys
