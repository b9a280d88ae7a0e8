-- ===== src/Store/Database/Statements.antt =====
-- What no statement of crates/nuncio-store/src/db.rs changes by itself: the tables.
use nuncio.Common.{String, ◌≡◌, refl, ap, ◌⊎◌, inl, inr, List, [], ◌∷◌, Option, none, some, ok, err}
use nuncio.Common.Action.{Keeps, ◌>>◌, >>=-Keeps}
use nuncio.Store.Database.{Database, query, failure, outcome, statement, modify}

module _ (P : Database → Type 0)
    (outcomes_free : (db : Database) (o : List (Option String))
      → P db
      → P (record db { outcomes = o })) where
  outcome-Keeps : (o : List (Option String)) → Keeps P (outcome o)
  unfolding outcome
  outcome-Keeps [] db h = h
  outcome-Keeps (none ∷ rest) db h = outcomes_free db rest h
  outcome-Keeps (some e ∷ rest) db h = outcomes_free db rest h

  pub statement-Keeps : Keeps P statement
  unfolding statement
  statement-Keeps db h = outcome-Keeps db.outcomes db h

  -- A statement followed by a write.
  pub write-Keeps :
      (f : Database → Database)
      → ((db : Database) → P db → P (f db))
      → Keeps P (statement >> modify f)
  write-Keeps f h = >>=-Keeps P statement (λ u. modify f) statement-Keeps (λ u db k. h db k)

-- A statement succeeds or fails, and either way leaves the tables as they are.
pub statement-cases :
    (db : Database)
    → (o : List (Option String)) × ((statement db ≡ (ok tt, record db { outcomes = o }))
        ⊎ ((e : String) × (statement db ≡ (err (query (failure e)), record db { outcomes = o }))))
unfolding statement outcome
statement-cases db = told db.outcomes
  where
    told :
        (q : List (Option String))
        → (o : List (Option String)) × ((outcome q db ≡ (ok tt, record db { outcomes = o }))
            ⊎ ((e : String) × (outcome q db
                  ≡ (err (query (failure e)), record db { outcomes = o }))))
    told [] = (db.outcomes, inl refl)
    told (none ∷ rest) = (rest, inl refl)
    told (some e ∷ rest) = (rest, inr (e, refl))

-- A statement of a database that answers.
pub statement-quiet : (db : Database) → db.outcomes ≡ [] → statement db ≡ (ok tt, db)
unfolding statement outcome
statement-quiet db quiet = ap (λ o. outcome o db) quiet
