-- ===== src/Rpc/Service.antt =====
-- What the handlers of crates/nunciod/src/grpc.rs share: the `Status` of a failed call (tonic), and
-- the database and the vault that they work on.
pub mod Steps
use nuncio.Common.{String, Bool, true, false, Option, none, some, Result, ok, err, map_err}
use nuncio.Common.Text.{◌⧺◌}
use nuncio.Common.Action.{Action}
use nuncio.Store.Database.{Database, Db, DatabaseError, SqlxError, show_database_error}
use nuncio.Store.Vault.{Vault, Vaulted, VaultError, show_vault_error}

pub data Status : Type 0 where
  invalid_argument not_found internal : String → Status

pub record Service : Type 0 where
  pub db : Database
  pub secrets : Vault

abbrev pub Handler : Type 0 → Type 0
Handler A = Action Service Status A

-- A value that was already computed, `ok_or_else`, and `if test { return Err(e) }`.
abbrev pub given : {S : Type 0} {A : Type 0} → Result Status A → Action S Status A
given r s = (r, s)

abbrev pub ok_or : {A : Type 0} → Status → Option A → Result Status A
ok_or e none = err e
ok_or e (some a) = ok a

abbrev pub reject : Bool → Status → Result Status (Unit {0})
reject true e = err e
reject false e = ok tt

-- A call of the database whose result the handler looks at.
abbrev pub attempt : {A : Type 0} → Db A → Service → Result DatabaseError A × Service
attempt m s = let (r, db) = m s.db in (r, record s { db = db })

-- `map_err(..)?` on a call of the database, with the text in front of the error, and on one of the
-- vault.
module _ (show_sqlx : SqlxError → String) where
  abbrev pub on_db : {A : Type 0} → String → Db A → Handler A
  on_db text m s =
      let (r, db) = m s.db in
      (map_err (λ e. internal (text ⧺ show_database_error show_sqlx e)) r, record s { db = db })

abbrev pub on_vault : {A : Type 0} → String → Vaulted A → Handler A
on_vault text m s =
    let (r, secrets) = m s.secrets in
    (map_err (λ e. internal (text ⧺ show_vault_error e)) r, record s { secrets = secrets })
