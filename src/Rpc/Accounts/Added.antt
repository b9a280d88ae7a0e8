-- ===== src/Rpc/Accounts/Added.antt =====
-- What `add_account` of crates/nunciod/src/grpc.rs leaves in the account table and in the vault.
use nuncio.Common.{
  String, false, ◌≡◌, refl, ap, ◌∙◌, ◌⊎◌, inl, inr, [], ◌∷◌, ◌++◌, Option, none, some, Result, ok,
  err, str_eq, map_err-eq-ok,
}
use nuncio.Core.Config.{AccountConfig, validate_account}
use nuncio.Core.Config.Admission.{IsUsable, validate_account_iff}
use nuncio.Store.Host.{Host}
use nuncio.Store.Database.{Database, DatabaseError, SqlxError, show_database_error}
use nuncio.Store.Accounts.{account_row, save_account}
use nuncio.Store.Accounts.Cases.{Accounts, Answers, others, save_account-cases}
use nuncio.Store.Vault.{Vault, VaultError, lookup}
use nuncio.Store.Vault.Secrets.{Written, set_secret-cases, delete_secret-cases}
use nuncio.Rpc.Service.{Status, invalid_argument, Service, ok_or, reject}
use nuncio.Rpc.Service.Steps.{given-step, ok_or-eq-ok, reject-eq-ok}
use nuncio.Rpc.Accounts.{admit, persist_failure, after_add, add_config, add_account}
use nuncio.Rpc.Accounts.Wire.{AccountConfigProto, AddAccountRequest, map_account_config_from_proto}

-- What was written over something written is as if written at once.
pub Written-trans :
    (key : String) (a b : Option String) (u v w : Vault)
    → Written key a u v
    → Written key b v w
    → Written key b u w
Written-trans key a b u v w (h, k) (h', k') = (h', λ i differs. k' i differs ∙ k i differs)

module _ (host : Host) (show_sqlx : SqlxError → String) (req : AddAccountRequest)
    (s : Service) where
  -- The account that the request asks for.
  abbrev pub Asks : AccountConfig → Type 0
  Asks config =
      (str_eq req.password "" ≡ false)
      × (message : AccountConfigProto) × (req.config ≡ some message)
      × (map_account_config_from_proto message ≡ ok config)
      × IsUsable config

  -- The password was written, and deleted again or not.
  abbrev pub RolledBack : AccountConfig → Status → Vault → Type 0
  RolledBack config e secrets =
      Written config.keyring_secret_key none s.secrets secrets
      ⊎ ((x : String) × (v : VaultError) × (e ≡ persist_failure x (err v))
          × Written config.keyring_secret_key (some req.password) s.secrets secrets)

  abbrev pub AddOutcome : Result Status String × Service → Type 0
  AddOutcome (ok id, t) =
      (config : AccountConfig) × Asks config
      × (id ≡ config.id)
      × Accounts s.db (others config.id s.db.accounts ++ account_row host config ∷ []) t.db
      × Written config.keyring_secret_key (some req.password) s.secrets t.secrets
  AddOutcome (err e, t) =
      Accounts s.db s.db.accounts t.db
      × ((t.secrets.storage ≡ s.secrets.storage)
          ⊎ ((config : AccountConfig) × Asks config × RolledBack config e t.secrets))

  untouched : (e : Status) → AddOutcome (err e, s)
  untouched e = ((s.db.outcomes, refl), inl refl)

  -- The save failed: the password is deleted.
  undone :
      (config : AccountConfig) (db : Database) (v : Vault) (x : DatabaseError)
      → Asks config
      → Accounts s.db s.db.accounts db
      → Written config.keyring_secret_key (some req.password) s.secrets v
      → AddOutcome (after_add host show_sqlx config (err x, record { db = db; secrets = v }))
  unfolding after_add
  undone config db v x asks kept wrote =
      let (w, c) = delete_secret-cases config.keyring_secret_key v in
      elim c [
        | inl (e, gone) ↦ rw e (
          kept,
          inr (
            config,
            asks,
            inl (Written-trans config.keyring_secret_key _ none s.secrets v w wrote gone),
          ),
        )
        | inr (y, e, same) ↦ rw e (
          kept,
          inr (
            config,
            asks,
            inr (
              show_database_error show_sqlx x,
              y,
              refl,
              (
                ap (λ l. lookup config.keyring_secret_key l) same ∙ wrote.0,
                λ k differs. ap (lookup k) same ∙ wrote.1 k differs,
              ),
            ),
          ),
        )
      ]

  settled :
      (config : AccountConfig) (v : Vault) (o : Result DatabaseError (Unit {0}) × Database)
      → Asks config
      → Written config.keyring_secret_key (some req.password) s.secrets v
      → Answers s.db tt (others config.id s.db.accounts ++ account_row host config ∷ []) o
      → AddOutcome (after_add host show_sqlx config (o.0, record { db = o.1; secrets = v }))
  unfolding after_add
  settled config v (ok u, db) asks wrote (inl (e, saved)) = (config, asks, refl, saved, wrote)
  settled config v (err x, db) asks wrote (inl (e, saved)) = cc e
  settled config v (ok u, db) asks wrote (inr (x, e, kept)) = cc e
  settled config v (err x, db) asks wrote (inr (y, e, kept)) = undone config db v x asks kept wrote

  stored :
      (message : AccountConfigProto) (config : AccountConfig)
      → str_eq req.password "" ≡ false
      → req.config ≡ some message
      → map_account_config_from_proto message ≡ ok config
      → AddOutcome (add_config host show_sqlx config req.password s)
  unfolding add_config admit
  stored message config p e f =
      given-step AddOutcome _ (admit config) s
        (λ u g.
          let usable =
            (validate_account_iff config).0 (map_err-eq-ok _ (validate_account config) g) in
          let (w, c) = set_secret-cases config.keyring_secret_key req.password s.secrets in
          elim c [
            | inl (h, wrote) ↦ rw h (
                settled config w (save_account host config s.db) (p, message, e, f, usable) wrote
                  (save_account-cases host config s.db))
            | inr (x, h, same) ↦ rw h ((s.db.outcomes, refl), inl same)
          ])
        (λ x g. untouched x)

  -- When an account is added, the request named a password and a usable account, whose id is the
  -- answer; its row replaced those of its id, the password is the secret under its key, and no other
  -- table and no other secret changed. When it is not added, no table changed, and either no secret
  -- did, or the account was usable and only the secret under its key changed: it is deleted, or it is
  -- the new password and the error says that the rollback failed.
  pub add_account_lem : AddOutcome (add_account host show_sqlx req s)
  unfolding add_account
  add_account_lem =
      given-step AddOutcome _ (ok_or (invalid_argument "config is required") req.config) s
        (λ message e.
          given-step AddOutcome _
            (reject (str_eq req.password "") (invalid_argument "password is required")) s
            (λ u p.
              given-step AddOutcome _ (map_account_config_from_proto message) s
                (λ config f.
                  stored message config (reject-eq-ok _ _ p) (ok_or-eq-ok _ req.config e) f)
                (λ x f. untouched x))
            (λ x p. untouched x))
        (λ x e. untouched x)
