-- ===== src/Rpc/Accounts/Removed.antt =====
-- What `remove_account` of crates/nunciod/src/grpc.rs leaves in the account table and in the vault.
use nuncio.Common.{
  String, ◌≡◌, refl, sym, ◌⊎◌, inl, inr, List, Option, none, some, Result, ok, err, ok-inj, str_eq,
}
use mathlib.Core.Path.{subst}
use nuncio.Common.Action.{continue, ◌>>◌}
use nuncio.Core.Config.{AccountConfig}
use nuncio.Store.Host.{Host}
use nuncio.Store.Database.{Database, DatabaseError, SqlxError}
use nuncio.Store.Accounts.{get_account, delete_account}
use nuncio.Store.Accounts.Cases.{
  Accounts, Answers, others, configured, get_account-cases, delete_account-cases,
}
use nuncio.Store.Vault.{Vault, delete_secret}
use nuncio.Store.Vault.Secrets.{Written, IsRefusing, delete_secret-forgets}
use nuncio.Rpc.Service.{Status, invalid_argument, Service, ok_or, on_db, given, reject}
use nuncio.Rpc.Service.Steps.{given-step, on_db-step}
use nuncio.Rpc.Accounts.{absent, existing, remove_account}

module _ (host : Host) (show_sqlx : SqlxError → String) (id : String) (s : Service) where
  -- The secret of the account is gone, or the vault refused to delete it.
  abbrev pub Forgotten : AccountConfig → Vault → Type 0
  Forgotten account secrets =
      Written account.keyring_secret_key none s.secrets secrets
      ⊎ (IsRefusing s.secrets × (secrets.storage ≡ s.secrets.storage))

  abbrev pub RemoveOutcome : Result Status (Unit {0}) × Service → Type 0
  RemoveOutcome (ok u, t) =
      (account : AccountConfig) × (configured host id s.db ≡ some account)
      × Accounts s.db (others id s.db.accounts) t.db
      × Forgotten account t.secrets
  RemoveOutcome (err e, t) = Accounts s.db s.db.accounts t.db × (t.secrets ≡ s.secrets)

  forgotten :
      (account : AccountConfig)
      → Forgotten account ((delete_secret account.keyring_secret_key s.secrets).1)
  forgotten account = delete_secret-forgets account.keyring_secret_key s.secrets

  abbrev forget : AccountConfig → Service → Result Status (Unit {0}) × Service
  forget account t =
      (ok tt, record t { secrets = (delete_secret account.keyring_secret_key t.secrets).1 })

  abbrev rest : AccountConfig → Service → Result Status (Unit {0}) × Service
  rest account = on_db show_sqlx "failed to remove account: " (delete_account id) >> forget account

  present :
      (a : Option AccountConfig) (o : List (Option String))
      → configured host id s.db ≡ a
      → RemoveOutcome
          (continue rest (ok_or (absent id) a, record s { db = record s.db { outcomes = o } }))
  present none o e = ((o, refl), refl)
  present (some account) o e =
      on_db-step RemoveOutcome (λ u. forget account) show_sqlx "failed to remove account: "
        (delete_account id) tt (others id s.db.accounts)
        (record s { db = record s.db { outcomes = o } })
        (delete_account-cases id (record s.db { outcomes = o }))
        (λ db accounts. (account, e, accounts, forgotten account))
        (λ x db accounts. (accounts, refl))

  looked_up :
      (r : Result DatabaseError (Option AccountConfig) × Database)
      → Answers s.db (configured host id s.db) s.db.accounts r
      → RemoveOutcome (
          continue rest (
            continue
              (λ a. given (ok_or (absent id) a))
              (on_db show_sqlx "failed to look up account: " (λ db. r) s)))
  looked_up (ok a, db) (inl (e, (o, f))) =
      subst (λ d. RemoveOutcome (continue rest (ok_or (absent id) a, record s { db = d }))) (sym f)
        (present a o (sym (ok-inj e)))
  looked_up (err x, db) (inl (e, accounts)) = cc e
  looked_up (ok a, db) (inr (x, e, accounts)) = cc e
  looked_up (err y, db) (inr (x, e, accounts)) = (accounts, refl)

  -- When an account is removed, the database held one under the id; its rows are gone, no other table
  -- changed, and no secret is left under its key while the other secrets are as before, unless the
  -- vault refused the call: then no secret changed. When it is not removed, no table and no secret
  -- changed.
  pub remove_account_lem : RemoveOutcome (remove_account host show_sqlx id s)
  unfolding remove_account existing
  remove_account_lem =
      given-step RemoveOutcome _ (reject (str_eq id "") (invalid_argument "id is required")) s
        (λ u e. looked_up (get_account host id s.db) (get_account-cases host id s.db))
        (λ x e. ((s.db.outcomes, refl), refl))
