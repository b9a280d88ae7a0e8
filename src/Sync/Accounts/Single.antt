-- ===== src/Sync/Accounts/Single.antt =====
-- `run_account_sync` of crates/nunciod/src/sync.rs, for an account that is set up and for one that is
-- not.
use nuncio.Common.{
  ℕ, String, ◌≡◌, ◌⊎◌, List, [], ◌∷◌, ◌++◌, map, Option, none, some, Result, ok, err, find, str_eq,
}
use nuncio.Common.Text.{◌⧺◌}
use nuncio.Core.Config.{AccountConfig}
use nuncio.Core.EventBus.{error}
use nuncio.Filter.Platform.{Platform}
use nuncio.Filter.Engine.{FilterEngine}
use nuncio.Store.Host.{Host}
use nuncio.Store.Database.{Database, SqlxError, query, failure}
use nuncio.Store.Accounts.{account_of}
use nuncio.Store.Vault.{VaultError}
use nuncio.Sync.Backend.{SyncError, account_not_found, vault, store, show_sync_error}
use nuncio.Sync.Fetch.{Daemon, sync_with_backend}
use nuncio.Sync.Accounts.{Outside, build_mail_backend}

module _ (p : Platform) (host : Host) (outside : Outside) (filter_engine : FilterEngine p)
    (show_sqlx : SqlxError → String) (account_id : String) where
  -- The configuration that the database holds for the account.
  abbrev pub configured : Database → Option AccountConfig
  configured db = find (λ a. str_eq a.id account_id) (map (account_of host) db.accounts)

  -- The run is one of the account's own backend, on the same tables and the same bus.
  abbrev pub Runs : Daemon → Result SyncError ℕ × Daemon → Type 0
  Runs d o =
      (config : AccountConfig) × (password : String) × (rest : List (Option String)) × (configured
          d.db
        ≡ some config)
      × (outside.get_secret config.keyring_secret_key ≡ ok password)
      × (o
          ≡ sync_with_backend p host (build_mail_backend outside config password) filter_engine
              show_sqlx (some account_id) (record d { db = record d.db { outcomes = rest } }))

  -- Why an account was not set up.
  abbrev pub Reason : Daemon → SyncError → Type 0
  Reason d e =
      ((e ≡ account_not_found account_id) × (configured d.db ≡ none))
      ⊎ (((v : VaultError) × (config : AccountConfig) × (e ≡ vault v)
            × (configured d.db ≡ some config)
            × (outside.get_secret config.keyring_secret_key ≡ err v))
          ⊎ ((x : String) × (e ≡ store (query (failure x)))))

  -- The run did not begin.
  abbrev pub Refused : Daemon → Result SyncError ℕ × Daemon → Type 0
  Refused d o =
      (e : SyncError) × (rest : List (Option String)) × Reason d e
      × (o.0 ≡ err e)
      × (o.1.db ≡ record d.db { outcomes = rest })
      × (o.1.bus.state.status ≡ d.bus.state.status)
      × (o.1.bus.published
          ≡ d.bus.published
            ++ error ("cannot sync account '" ⧺ account_id ⧺ "': " ⧺ show_sync_error show_sqlx e)
              ∷ [])

  abbrev Outcome : Daemon → Result SyncError ℕ × Daemon → Type 0
  Outcome d o = Runs d o ⊎ Refused d o
