-- ===== src/Store/Messages/Stored.antt =====
-- Which messages crates/nuncio-store/src/db.rs finds: `save_email` never loses one.
use nuncio.Common.{
  ℕ, ◌+◌, String, Bool, true, false, not, ◌||◌, ◌≡◌, refl, sym, map, ◌∙◌, List, [], ◌∷◌, ◌++◌,
  Option, none, some, ok, err, str_eq, eq_iff, keep, any, find, if◌then◌else◌, Bool-cases, inl, inr,
  ◌⊎◌,
}
use nuncio.Common.{arith}
use nuncio.Common.Action.{continue, Keeps, >>=-Keeps, Ensures, Unit-Ensures, >>=-Ensures}
use nuncio.Store.Database.Statements.{statement-Keeps}
use nuncio.Core.Model.{Email}
use nuncio.Store.Host.{Host}
use nuncio.Store.Database.{Database, MessageRow, query, failure, outcome, statement}
use nuncio.Store.Messages.{
  flag_row, set_message_read, save_email, row_of, write_email, replace_message, is_stored,
  get_message, fetched, email_of,
}

module _ (i : String) where
  abbrev names : MessageRow → Bool
  names r = str_eq r.id i

  or_true : (a b : Bool) → b ≡ true → (a || b) ≡ true
  or_true a b h = ground arith

  or_left : (a b : Bool) → a ≡ true → (a || b) ≡ true
  or_left a b h = ground arith

  or_right : (a b : Bool) → a ≡ false → (a || b) ≡ true → b ≡ true
  or_right a b h k = ground arith

  any-append_right :
      (rows : List MessageRow) (row : MessageRow)
      → names row ≡ true
      → any names (rows ++ row ∷ []) ≡ true
  any-append_right [] row h = or_left (names row) false h
  any-append_right (r ∷ rows) row h = or_true (names r) _ (any-append_right rows row h)

  -- One round of the deletion: a row stays, or was not needed.
  stays :
      (b : Bool) (r : MessageRow) (xs ys : List MessageRow)
      → b ≡ false
      → names r ≡ true
      → any names ((if not b then r ∷ xs else xs) ++ ys) ≡ true
  stays true r xs ys h k = cc h
  stays false r xs ys h k = or_left (names r) (any names (xs ++ ys)) k

  goes :
      (b : Bool) (r : MessageRow) (xs ys : List MessageRow)
      → any names (xs ++ ys) ≡ true
      → any names ((if not b then r ∷ xs else xs) ++ ys) ≡ true
  goes true r xs ys h = h
  goes false r xs ys h = or_true (names r) (any names (xs ++ ys)) h

  different : (r row : MessageRow) → names r ≡ true → names row ≡ false → str_eq r.id row.id ≡ false
  different r row h k = elim (Bool-cases (str_eq r.id row.id)) [
    | inr e ↦ e
    | inl e ↦ cc ((eq_iff row.id i).1 (sym ((eq_iff r.id row.id).0 e) ∙ (eq_iff r.id i).0 h), k)
  ]

  any-keep :
      (rows : List MessageRow) (row : MessageRow)
      → names row ≡ false
      → any names rows ≡ true
      → any names (keep (λ r. not (str_eq r.id row.id)) rows ++ row ∷ []) ≡ true
  any-keep [] row n h = cc h
  any-keep (r ∷ rows) row n h = elim (Bool-cases (names r)) [
    | inl here ↦ stays (str_eq r.id row.id) r _ (row ∷ []) (different r row here n) here
    | inr there ↦
        goes (str_eq r.id row.id) r _ (row ∷ [])
          (any-keep rows row n (or_right (names r) _ there h))
  ]

  replace_message-stored :
      (row : MessageRow) (rows : List MessageRow)
      → any names rows ≡ true
      → any names (replace_message row rows) ≡ true
  unfolding replace_message
  replace_message-stored row rows h = elim (Bool-cases (names row)) [
    | inl same ↦ any-append_right (keep (λ r. not (str_eq r.id row.id)) rows) row same
    | inr other ↦ any-keep rows row other h
  ]

  find_stored :
      (rows : List MessageRow)
      → any names rows ≡ true
      → (row : MessageRow) × (find names rows ≡ some row)
  find_stored [] h = cc h
  find_stored (r ∷ rows) h =
      first_or (names r) r (find names rows) (λ e. find_stored rows (or_right (names r) _ e h))
    where
      first_or :
          (b : Bool) (r : MessageRow) (rest : Option MessageRow)
          → (b ≡ false → (row : MessageRow) × (rest ≡ some row))
          → (row : MessageRow) × ((if b then some r else rest) ≡ some row)
      first_or true r rest k = (r, refl)
      first_or false r rest k = k refl

module _ (host : Host) where
  -- A message that is stored stays so when another, or a new copy of it, is saved.
  pub write_email-stored :
      (i : String) (email : Email) (row : MessageRow) (db : Database)
      → is_stored i db ≡ true
      → is_stored i (write_email host email row db) ≡ true
  unfolding is_stored write_email
  write_email-stored i email row db h = replace_message-stored i row db.messages h

  -- The lookup of a stored message finds it, unless its statement fails.
  pub get_message-stored :
      (i : String) (db : Database)
      → is_stored i db ≡ true
      → ((email : Email) × ((get_message host i db).0 ≡ ok email))
        ⊎ ((e : String) × ((get_message host i db).0 ≡ err (query (failure e))))
  unfolding get_message fetched is_stored statement outcome
  get_message-stored i db h = looked_up db.outcomes db (find_stored i db.messages h)
    where
      looked_up :
          (o : List (Option String)) (db : Database)
          → (row : MessageRow) × (find (names i) db.messages ≡ some row)
          → ((email : Email) × ((continue (λ u db. (fetched host i db, db)) (outcome o db)).0
                ≡ ok email))
            ⊎ ((e : String) × ((continue (λ u db. (fetched host i db, db)) (outcome o db)).0
                  ≡ err (query (failure e))))
      looked_up [] db (row, f) = inl (email_of host db row, rw f)
      looked_up (none ∷ o) db (row, f) = inl (email_of host (record db { outcomes = o }) row, rw f)
      looked_up (some e ∷ o) db (row, f) = inr (e, refl)

-- Flagging keeps the ids.
names-if :
    (i : String) (b : Bool) (n : ℕ) (r : MessageRow)
    → names i (if b then record r { read_flag = n } else r) ≡ names i r
names-if i true n r = refl
names-if i false n r = refl

any-flag_row :
    (i id : String) (read : Bool) (rows : List MessageRow)
    → any (names i) (map (flag_row id read) rows) ≡ any (names i) rows
unfolding flag_row
any-flag_row i id read [] = refl
any-flag_row i id read (r ∷ rows) =
    cc (names-if i (str_eq r.id id) (if read then 1 else 0) r, any-flag_row i id read rows)

-- Flagging a stored message succeeds when the database answers, and touches only the flags.
pub set_message_read-calm :
    (id : String) (read : Bool) (db : Database)
    → is_stored id db ≡ true
    → (db' : Database) × (set_message_read id read (record db { outcomes = [] })
        ≡ (ok tt, record db' { outcomes = [] }))
      × (is_stored id db' ≡ true)
      × (db'.filter_execution_logs ≡ db.filter_execution_logs)
unfolding set_message_read statement outcome is_stored
set_message_read-calm id read db h =
    let kept : any (names id) (map (flag_row id read) db.messages) ≡ true =
      any-flag_row id id read db.messages ∙ h in
    (record db { messages = map (flag_row id read) db.messages }, rw kept, kept, refl)

module _ (host : Host) where
  -- Flagging loses no message.
  pub set_message_read-stored :
      (i id : String) (read : Bool) → Keeps (λ db. is_stored i db ≡ true) (set_message_read id read)
  unfolding set_message_read is_stored
  set_message_read-stored i id read =
      >>=-Keeps (λ db. is_stored i db ≡ true) statement _
        (statement-Keeps (λ db. is_stored i db ≡ true) (λ db o h. h))
        (λ u db h. any-flag_row i id read db.messages ∙ h)

  abbrev Anything : Database → Type 0
  Anything db = Unit

  done : Ensures Anything statement (λ u. Anything)
  done = Unit-Ensures Anything statement

  -- A message that was saved is stored.
  pub save_email-stored :
      (e : Email) → Ensures Anything (save_email host e) (λ u db. is_stored e.id db ≡ true)
  unfolding save_email is_stored write_email replace_message row_of
  save_email-stored e db h =
      >>=-Ensures Anything statement (λ u. Anything) _ _ done
        (λ a.
          >>=-Ensures Anything statement (λ u. Anything) _ _ done
            (λ b.
              >>=-Ensures Anything statement (λ u. Anything) _ _ done
                (λ c.
                  >>=-Ensures Anything statement (λ u. Anything) _ _ done
                    (λ d.
                      >>=-Ensures Anything statement (λ u. Anything) _ _ done
                        (λ f t k.
                          any-append_right e.id _ (row_of host e db)
                            ((eq_iff e.id e.id).1 refl))))))
        (record db { randoms = db.randoms + 2 }) tt
