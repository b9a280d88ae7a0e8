-- ===== src/Store/Accounts/Cases.antt =====
-- What the statements on the account table of crates/nuncio-store/src/db.rs come to: they take effect,
-- or fail and change no table.
use nuncio.Common.{
  String, not, ◌≡◌, refl, ◌⊎◌, inl, inr, List, [], ◌∷◌, ◌++◌, map, Option, Result, ok, err, str_eq,
  keep, find,
}
use nuncio.Core.Config.{AccountConfig}
use nuncio.Store.Host.{Host}
use nuncio.Store.Database.{Database, AccountRow, DatabaseError, query, failure}
use nuncio.Store.Database.Statements.{statement-cases}
use nuncio.Store.Accounts.{
  account_row, account_of, save_account, list_accounts, get_account, delete_account,
}

-- Only the account table changed, and is the one given.
abbrev pub Accounts : Database → List AccountRow → Database → Type 0
Accounts db rows after =
    (o : List (Option String)) × (after ≡ record db { accounts = rows; outcomes = o })

-- The rows without those of an id.
abbrev pub others : String → List AccountRow → List AccountRow
others id rows = keep (λ r. not (str_eq r.id id)) rows

-- A call answered, or failed and left every table.
abbrev pub Answers :
    {A : Type 0} → Database → A → List AccountRow → Result DatabaseError A × Database → Type 0
Answers db answer rows o =
    ((o.0 ≡ ok answer) × Accounts db rows o.1)
    ⊎ ((e : DatabaseError) × (o.0 ≡ err e) × Accounts db db.accounts o.1)

module _ (host : Host) where
  -- The account that is configured under an id.
  abbrev pub configured : String → Database → Option AccountConfig
  configured id db = find (λ a. str_eq a.id id) (map (account_of host) db.accounts)

  pub save_account-cases :
      (config : AccountConfig) (db : Database)
      → Answers db tt
          (others config.id db.accounts ++ account_row host config ∷ [])
          (save_account host config db)
  unfolding save_account
  save_account-cases config db =
      let (o, c) = statement-cases db in
      elim c [
        | inl e ↦ rw e (inl (refl, (o, refl)))
        | inr (x, e) ↦ rw e (inr (query (failure x), refl, (o, refl)))
      ]

  pub get_account-cases :
      (id : String) (db : Database)
      → Answers db (configured id db) db.accounts (get_account host id db)
  unfolding get_account list_accounts
  get_account-cases id db =
      let (o, c) = statement-cases db in
      elim c [
        | inl e ↦ rw e (inl (refl, (o, refl)))
        | inr (x, e) ↦ rw e (inr (query (failure x), refl, (o, refl)))
      ]

pub delete_account-cases :
    (id : String) (db : Database) → Answers db tt (others id db.accounts) (delete_account id db)
unfolding delete_account
delete_account-cases id db =
    let (o, c) = statement-cases db in
    elim c [
      | inl e ↦ rw e (inl (refl, (o, refl)))
      | inr (x, e) ↦ rw e (inr (query (failure x), refl, (o, refl)))
    ]
