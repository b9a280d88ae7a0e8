-- ===== src/Rpc/Accounts/Rotation.antt =====
-- What `rotate_credential_and_persist` of crates/nunciod/src/grpc.rs leaves in the account table and in
-- the vault.
use nuncio.Common.{
  String, ◌≡◌, refl, sym, ap, ◌∙◌, ◌⊎◌, inl, inr, List, [], ◌∷◌, ◌++◌, Option, none, some, Result,
  ok, err, str_eq, eq_iff, Bool-cases,
}
use nuncio.Common.Action.{continue}
use mathlib.Core.Path.{subst}
use nuncio.Core.Config.{AccountConfig}
use nuncio.Store.Host.{Host}
use nuncio.Store.Database.{
  Database, DatabaseError, SqlxError, show_database_error, statement, outcome,
}
use nuncio.Store.Accounts.{account_row, save_account}
use nuncio.Store.Accounts.Cases.{Accounts, Answers, others, save_account-cases}
use nuncio.Store.Vault.{
  access, refusal, removed, Vault, VaultError, storage_failed, lookup, found, get_secret,
  set_secret, delete_secret,
}
use nuncio.Store.Vault.Secrets.{
  Written, lookup-set, lookup-without, set_secret-cases, delete_secret-cases, get_secret-cases,
}
use nuncio.Rpc.Service.{Status, Service, attempt, on_vault}
use nuncio.Rpc.Accounts.{
  persist_failure, readable, restore, after_rotation, rotate_credential_and_persist,
}
use nuncio.Rpc.Accounts.Added.{Written-trans}

-- Every secret is as it was.
abbrev pub Restored : Vault → Vault → Type 0
Restored v w = (k : String) → lookup k w.storage ≡ lookup k v.storage

-- A secret that is written back to what it was.
Written-Restored :
    (key : String) (u w : Vault) → Written key (lookup key u.storage) u w → Restored u w
Written-Restored key u w (h, k) i = elim (Bool-cases (str_eq i key)) [
  | inl same ↦
      ap (λ j. lookup j w.storage) ((eq_iff i key).0 same)
      ∙ h
      ∙ ap (λ j. lookup j u.storage) (sym ((eq_iff i key).0 same))
  | inr apart ↦ k i (λ e. cc ((eq_iff i key).1 e, apart))
]

restore-cases :
    (key : String) (previous : Option String) (v : Vault)
    → (w : Vault) × (((restore key previous v ≡ (ok tt, w)) × Written key previous v w)
        ⊎ ((e : VaultError) × (restore key previous v ≡ (err e, w)) × (w.storage ≡ v.storage)))
unfolding restore
restore-cases key none v = delete_secret-cases key v
restore-cases key (some prior) v =
    let (w, c) = set_secret-cases key prior v in
    elim c [ inl wrote ↦ (w, inl wrote) | inr (x, e, same) ↦ (w, inr (storage_failed x, e, same)) ]

module _ (host : Host) (show_sqlx : SqlxError → String) where
  module _ (config : AccountConfig) (new_password : String) (s : Service) where
    abbrev key : String
    key = config.keyring_secret_key

    -- The old credential is lost, or the new one stays although the account was not saved.
    abbrev pub Damaged : Status → Vault → Type 0
    Damaged e secrets =
        ((x : String) × ((get_secret key s.secrets).0 ≡ err (storage_failed x))
          × Written key none s.secrets secrets)
        ⊎ ((x : String) × (v : VaultError) × (e ≡ persist_failure x (err v))
            × Written key (some new_password) s.secrets secrets)

    abbrev pub RotateOutcome : Result Status (Unit {0}) × Service → Type 0
    RotateOutcome (ok u, t) =
        Accounts s.db (others config.id s.db.accounts ++ account_row host config ∷ []) t.db
        × Written key (some new_password) s.secrets t.secrets
    RotateOutcome (err e, t) =
        Accounts s.db s.db.accounts t.db × (Restored s.secrets t.secrets ⊎ Damaged e t.secrets)

    -- What the snapshot said.
    abbrev Snapshot : Option String → Type 0
    Snapshot previous =
        (previous ≡ lookup key s.secrets.storage)
        ⊎ ((x : String) × (previous ≡ none)
            × ((get_secret key s.secrets).0 ≡ err (storage_failed x)))

    -- The prior secret was put back.
    put_back :
        (db : Database) (previous : Option String) (w : Vault) (e : Status)
        → Snapshot previous
        → Accounts s.db s.db.accounts db
        → Written key previous s.secrets w
        → RotateOutcome (err e, record { db = db; secrets = w })
    put_back db previous w e (inl same) kept wrote = (
      kept,
      inl (Written-Restored key s.secrets w (subst (λ o. Written key o s.secrets w) same wrote)),
    )
    put_back db previous w e (inr (x, gone, unread)) kept wrote =
        (kept, inr (inl (x, unread, subst (λ o. Written key o s.secrets w) gone wrote)))

    -- The account was saved, or not and the rollback follows.
    settled :
        (previous : Option String) (w : Vault) (o : Result DatabaseError (Unit {0}) × Database)
        → Snapshot previous
        → Written key (some new_password) s.secrets w
        → Answers s.db tt (others config.id s.db.accounts ++ account_row host config ∷ []) o
        → RotateOutcome
            (after_rotation host show_sqlx config previous (o.0, record { db = o.1; secrets = w }))
    unfolding after_rotation
    settled previous w (ok u, db) snap wrote (inl (e, saved)) = (saved, wrote)
    settled previous w (err x, db) snap wrote (inl (e, saved)) = cc e
    settled previous w (ok u, db) snap wrote (inr (y, e, kept)) = cc e
    settled previous w (err x, db) snap wrote (inr (y, e, kept)) =
        let (u, c) = restore-cases key previous w in
        elim c [
          | inl (h, back) ↦ rw h (
              put_back db previous u _ snap kept
                (Written-trans key (some new_password) previous s.secrets w u wrote back))
          | inr (r, h, same) ↦ rw h (
            kept,
            inr (
                inr (
                  show_database_error show_sqlx x,
                  r,
                  refl,
                  (
                    ap (lookup key) same ∙ wrote.0,
                    λ k differs. ap (lookup k) same ∙ wrote.1 k differs,
                  ),
                )),
          )
        ]

    written :
        (previous : Option String) (v : Vault)
        → Snapshot previous
        → v.storage ≡ s.secrets.storage
        → RotateOutcome (
            continue
              (λ u t.
                after_rotation host show_sqlx config previous
                  (attempt (save_account host config) t))
              (on_vault "failed to store credential in vault: "
                (set_secret key new_password)
                (record s { secrets = v })))
    written previous v snap same =
        let (w, c) = set_secret-cases key new_password v in
        elim c [
          | inl (h, (held, rest)) ↦ rw h (
              settled previous w (save_account host config s.db) snap
                (held, λ k differs. rest k differs ∙ ap (lookup k) same)
                (save_account-cases host config s.db))
          | inr (x, h, kept) ↦ rw h ((s.db.outcomes, refl), inl (λ k. ap (lookup k) (kept ∙ same)))
        ]

    -- What the snapshot reads.
    readable-found : (o : Option String) → readable (found key o) ≡ o
    unfolding readable found
    readable-found none = refl
    readable-found (some secret) = refl

    pub rotate-RotateOutcome :
        RotateOutcome (rotate_credential_and_persist host show_sqlx config new_password s)
    unfolding rotate_credential_and_persist readable
    rotate-RotateOutcome =
        let (v, same, c) = get_secret-cases key s.secrets in
        elim c [
          | inl h ↦ rw h (
              written (readable (found key (lookup key s.secrets.storage))) v
                (inl (readable-found (lookup key s.secrets.storage))) same)
          | inr (x, h) ↦ rw h (written none v (inr (x, refl, ap (λ o. o.0) h)) same)
        ]

    -- A rotation whose save fails, when the vault refuses only the reading of the old credential,
    -- deletes the credential, whatever it was, although the account is still there.
    pub rotate_loses_unread :
        (refused failed : String) (rest : List (Option String))
        → s.secrets.refusals ≡ some refused ∷ []
        → s.db.outcomes ≡ some failed ∷ rest
        → (lookup key (
              (rotate_credential_and_persist host show_sqlx config new_password
                s).1.secrets.storage)
            ≡ none)
          × ((rotate_credential_and_persist host show_sqlx config new_password s).1.db.accounts
              ≡ s.db.accounts)
    unfolding rotate_credential_and_persist get_secret set_secret access refusal save_account
        statement outcome after_rotation restore readable delete_secret removed
    rotate_loses_unread refused failed rest unread unsaved =
        rw (unread, unsaved, lookup-set key new_password s.secrets.storage)
          (lookup-without key _, refl)
