-- ===== src/Rpc/Accounts/Updated.antt =====
-- What `update_account` of crates/nunciod/src/grpc.rs leaves in the account table and in the vault.
use nuncio.Common.{
  String, Bool, true, false, ◌≡◌, refl, sym, ◌⊎◌, inl, inr, List, [], ◌∷◌, ◌++◌, Option, none, some,
  Result, ok, err, str_eq, ok-inj, map_err-eq-ok, if◌then◌else◌,
}
use mathlib.Core.Path.{subst}
use nuncio.Common.Action.{continue}
use nuncio.Core.Config.{AccountConfig, validate_account}
use nuncio.Core.Config.Admission.{IsUsable, validate_account_iff}
use nuncio.Store.Host.{Host}
use nuncio.Store.Database.{Database, DatabaseError, SqlxError}
use nuncio.Store.Accounts.{account_row, save_account, get_account}
use nuncio.Store.Accounts.Cases.{
  Accounts, Answers, others, configured, save_account-cases, get_account-cases,
}
use nuncio.Store.Vault.{Vault}
use nuncio.Store.Vault.Secrets.{Written}
use nuncio.Rpc.Service.{Status, invalid_argument, Service, ok_or, on_db, given}
use nuncio.Rpc.Service.Steps.{given-step, ok_or-eq-ok}
use nuncio.Rpc.Accounts.{
  admit, absent, existing, write_update, update_account, rotate_credential_and_persist,
}
use nuncio.Rpc.Accounts.Rotation.{Restored, Damaged, RotateOutcome, rotate-RotateOutcome}
use nuncio.Rpc.Accounts.Wire.{
  AccountConfigProto, UpdateAccountRequest, map_account_config_from_proto,
}

module _ (host : Host) (show_sqlx : SqlxError → String) (req : UpdateAccountRequest)
    (s : Service) where
  -- The account that the request gives.
  abbrev pub Gives : AccountConfig → Type 0
  Gives config =
      (message : AccountConfigProto) × (req.config ≡ some message)
      × (map_account_config_from_proto message ≡ ok config)
      × IsUsable config

  -- A password that is given and not blank is the secret; otherwise no secret changed.
  abbrev pub Credential : Option String → AccountConfig → Vault → Type 0
  Credential none config secrets = secrets.storage ≡ s.secrets.storage
  Credential (some password) config secrets =
      ((str_eq password "" ≡ true) × (secrets.storage ≡ s.secrets.storage))
      ⊎ ((str_eq password "" ≡ false)
          × Written config.keyring_secret_key (some password) s.secrets secrets)

  abbrev pub UpdateOutcome : Result Status (Unit {0}) × Service → Type 0
  UpdateOutcome (ok u, t) =
      (config : AccountConfig) × Gives config
      × ((old : AccountConfig) × (configured host config.id s.db ≡ some old))
      × Accounts s.db (others config.id s.db.accounts ++ account_row host config ∷ []) t.db
      × Credential req.password config t.secrets
  UpdateOutcome (err e, t) =
      Accounts s.db s.db.accounts t.db
      × (Restored s.secrets t.secrets
          ⊎ ((config : AccountConfig) × Gives config
              × ((password : String) × (req.password ≡ some password)
                  × Damaged host show_sqlx config password s e t.secrets)))

  -- Nothing changed but the fate of the statements to come.
  failed :
      (e : Status) (o : List (Option String))
      → UpdateOutcome (err e, record s { db = record s.db { outcomes = o } })
  failed e o = ((o, refl), inl (λ k. refl))

  module _ (config old : AccountConfig) (gives : Gives config)
      (known : configured host config.id s.db ≡ some old) (o : List (Option String)) where
    -- The service after the account was looked up.
    abbrev found : Service
    found = record s { db = record s.db { outcomes = o } }

    saved :
        Credential req.password config s.secrets
        → UpdateOutcome
            (on_db show_sqlx "failed to persist account: " (save_account host config) found)
    saved credential =
        told (save_account host config found.db) (save_account-cases host config found.db)
      where
        told :
            (r : Result DatabaseError (Unit {0}) × Database)
            → Answers found.db tt (others config.id s.db.accounts ++ account_row host config ∷ []) r
            → UpdateOutcome (on_db show_sqlx "failed to persist account: " (λ db. r) found)
        told (ok u, db) (inl (e, accounts)) = (config, gives, (old, known), accounts, credential)
        told (err x, db) (inl (e, accounts)) = cc e
        told (ok u, db) (inr (x, e, accounts)) = cc e
        told (err y, db) (inr (x, e, accounts)) = (accounts, inl (λ k. refl))

    rotated :
        (password : String)
        → req.password ≡ some password
        → str_eq password "" ≡ false
        → (r : Result Status (Unit {0}) × Service)
        → RotateOutcome host show_sqlx config password found r
        → UpdateOutcome r
    rotated password e blank (ok u, t) (accounts, wrote) = (
      config,
      gives,
      (old, known),
      accounts,
      subst (λ p. Credential p config t.secrets) (sym e) (inr (blank, wrote)),
    )
    rotated password e blank (err x, t) (accounts, inl restored) = (accounts, inl restored)
    rotated password e blank (err x, t) (accounts, inr damaged) =
        (accounts, inr (config, gives, (password, e, damaged)))

    -- A password that is blank, or not.
    passed :
        (password : String) (blank : Bool)
        → req.password ≡ some password
        → str_eq password "" ≡ blank
        → UpdateOutcome (
            (if blank
                then on_db show_sqlx "failed to persist account: " (save_account host config)
                else rotate_credential_and_persist host show_sqlx config password)
              found)
    passed password true e b =
        saved (subst (λ p. Credential p config s.secrets) (sym e) (inl (b, refl)))
    passed password false e b =
        rotated password e b _ (rotate-RotateOutcome host show_sqlx config password found)

    updated :
        (o : Option String)
        → req.password ≡ o
        → UpdateOutcome (write_update host show_sqlx config o found)
    unfolding write_update
    updated none e = saved (subst (λ p. Credential p config s.secrets) (sym e) refl)
    updated (some password) e = passed password (str_eq password "") e refl

  -- The account is looked up, and replaced if it is there.
  replaced :
      (config : AccountConfig)
      → Gives config
      → UpdateOutcome (
          continue
            (λ old. write_update host show_sqlx config req.password)
            (existing host show_sqlx config.id s))
  unfolding existing
  replaced config gives =
      looked_up (get_account host config.id s.db) (get_account-cases host config.id s.db)
    where
      present :
          (a : Option AccountConfig) (o : List (Option String))
          → configured host config.id s.db ≡ a
          → UpdateOutcome (
              continue
                (λ old. write_update host show_sqlx config req.password)
                (ok_or (absent config.id) a, record s { db = record s.db { outcomes = o } }))
      present none o e = failed _ o
      present (some old) o e = updated config old gives e o req.password refl

      looked_up :
          (r : Result DatabaseError (Option AccountConfig) × Database)
          → Answers s.db (configured host config.id s.db) s.db.accounts r
          → UpdateOutcome (
              continue
                (λ old. write_update host show_sqlx config req.password)
                (continue
                  (λ a. given (ok_or (absent config.id) a))
                  (on_db show_sqlx "failed to look up account: " (λ db. r) s)))
      looked_up (ok a, db) (inl (e, (o, f))) =
          subst
            (λ d. UpdateOutcome (
              continue (λ old. write_update host show_sqlx config req.password)
                (ok_or (absent config.id) a, record s { db = d })))
            (sym f) (present a o (sym (ok-inj e)))
      looked_up (err x, db) (inl (e, accounts)) = cc e
      looked_up (ok a, db) (inr (x, e, accounts)) = cc e
      looked_up (err y, db) (inr (x, e, accounts)) = (accounts, inl (λ k. refl))

  -- When an account is updated, the request gave a usable account whose id the database held; its row
  -- replaced those of its id, a password that was given and is not blank is the secret under its key,
  -- and no other table and no other secret changed. When it is not updated, no table changed, and the
  -- secrets are those from before, except in two cases, in which only the one under the account's key
  -- differs: it is deleted if it could not be read before, and it is the new password if the rollback
  -- failed, as the error says.
  pub update_account_lem : UpdateOutcome (update_account host show_sqlx req s)
  unfolding update_account admit
  update_account_lem =
      given-step UpdateOutcome _ (ok_or (invalid_argument "config is required") req.config) s
        (λ message e.
          given-step UpdateOutcome _ (map_account_config_from_proto message) s
            (λ config f.
              given-step UpdateOutcome _ (admit config) s
                (λ u g. replaced config (
                  message,
                  ok_or-eq-ok _ req.config e,
                  f,
                  (validate_account_iff config).0 (map_err-eq-ok _ (validate_account config) g),
                ))
                (λ x g. failed x s.db.outcomes))
            (λ x f. failed x s.db.outcomes))
        (λ x e. failed x s.db.outcomes)
