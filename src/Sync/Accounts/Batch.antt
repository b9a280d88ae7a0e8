-- ===== src/Sync/Accounts/Batch.antt =====
-- `run_all_accounts_sync` of crates/nunciod/src/sync.rs: the accounts of a batch are attempted one
-- after the other.
use nuncio.Common.{
  ℕ, ◌+◌, String, ◌≡◌, refl, sym, ap, ◌∙◌, List, [], ◌∷◌, ◌++◌, none, some, Result, ok, err, All,
  arith,
}
use mathlib.Core.List.{append-nil, append_assoc}
use nuncio.Common.Text.{◌⧺◌}
use nuncio.Core.Config.{AccountConfig}
use nuncio.Core.EventBus.{
  CoreEvent, error, idle, sync_started, sync_completed, process_command, publish_event,
  complete_sync, sync_all,
}
use nuncio.Filter.Platform.{Platform}
use nuncio.Filter.Engine.{FilterEngine}
use nuncio.Store.Host.{Host}
use nuncio.Store.Database.{show_database_error, DatabaseError, SqlxError, statement}
use nuncio.Store.Database.Statements.{statement-Keeps}
use nuncio.Common.Action.{>>=-Keeps}
use nuncio.Store.Accounts.{list_accounts}
use nuncio.Store.Ledger.Chain.{IsLedger}
use nuncio.Store.Vault.{VaultError, show_vault_error}
use nuncio.Sync.Backend.{SyncError, show_sync_error}
use nuncio.Sync.Fetch.{Daemon, fetch_and_persist}
use nuncio.Sync.Lifecycle.{IsProgress, fetch_and_persist-IsUnderWay}
use nuncio.Sync.Audit.{fetch_and_persist-IsLedger}
use nuncio.Sync.Accounts.{
  Outside, build_mail_backend, count_fetched, sync_one, sync_each, sync_listed,
  run_all_accounts_sync,
}

module _ (p : Platform) (host : Host) (outside : Outside) (filter_engine : FilterEngine p)
    (show_sqlx : SqlxError → String) where
  -- The fetch of an account whose password is known.
  abbrev pub fetched : AccountConfig → String → Daemon → Result SyncError ℕ × Daemon
  fetched config password d =
      fetch_and_persist p host (build_mail_backend outside config password) filter_engine
        (some config.id) d

  -- What it adds to the total, and the event of its failure, if there was one.
  abbrev pub count_of : Result SyncError ℕ → ℕ
  count_of (ok n) = n
  count_of (err e) = 0

  abbrev pub failure_of : AccountConfig → Result SyncError ℕ → List CoreEvent
  failure_of config (ok n) = []
  failure_of config (err e) =
      error ("sync failed for account '" ⧺ config.id ⧺ "': " ⧺ show_sync_error show_sqlx e) ∷ []

  -- The share of one account: its count and its events.
  abbrev pub Attempted :
      AccountConfig → Result VaultError String → Daemon → ℕ → List CoreEvent → Type 0
  Attempted config (ok password) d n events =
      (progress : List CoreEvent) × All (IsProgress (some config.id)) progress
      × (n ≡ count_of (fetched config password d).0)
      × (events ≡ progress ++ failure_of config (fetched config password d).0)
  Attempted config (err e) d n events =
      (n ≡ 0)
      × (events
          ≡ error ("cannot read credential for account '" ⧺ config.id ⧺ "': " ⧺ show_vault_error e)
            ∷ [])

  -- The state in which the account leaves the daemon to the next one.
  abbrev pub after : AccountConfig → Daemon → Daemon
  after config d =
      (sync_one p host outside filter_engine show_sqlx config
        (outside.get_secret config.keyring_secret_key) 0 d).1

  -- The accounts in turn.
  abbrev pub InTurn : List AccountConfig → Daemon → ℕ → List CoreEvent → Type 0
  InTurn [] d n events = (n ≡ 0) × (events ≡ [])
  InTurn (config ∷ configs) d n events =
      (first rest : ℕ) × (own others : List CoreEvent) × Attempted config
        (outside.get_secret config.keyring_secret_key) d first own
      × InTurn configs (after config d) rest others
      × (n ≡ first + rest)
      × (events ≡ own ++ others)

  sync_one-Attempted :
      (config : AccountConfig) (r : Result VaultError String) (total : ℕ) (d : Daemon)
      → (n : ℕ) × (events : List CoreEvent) × Attempted config r d n events
        × (sync_one p host outside filter_engine show_sqlx config r total d
            ≡ (total + n, (sync_one p host outside filter_engine show_sqlx config r 0 d).1))
        × ((sync_one p host outside filter_engine show_sqlx config r 0 d).1.bus.published
            ≡ d.bus.published ++ events)
  unfolding sync_one count_fetched process_command
  sync_one-Attempted config (err e) total d =
      (0, _, (refl, refl), ap (λ n. (n, _)) (omega arith), refl)
  sync_one-Attempted config (ok password) total d =
      let (progress, e, all) =
        fetch_and_persist-IsUnderWay p host (build_mail_backend outside config password)
          filter_engine (some config.id) d.bus d ([], sym (append-nil d.bus.published), tt) in
      let (c, q) = told (fetched config password d) in
      (
        count_of (fetched config password d).0,
        progress ++ failure_of config (fetched config password d).0,
        (progress, all, refl, refl),
        c,
        q ∙ rw (e, append_assoc) refl,
      )
    where
      told :
          (o : Result SyncError ℕ × Daemon)
          → (count_fetched p host outside filter_engine show_sqlx config total o ≡ (
            total + count_of o.0,
            (count_fetched p host outside filter_engine show_sqlx config 0 o).1,
          ))
            × ((count_fetched p host outside filter_engine show_sqlx config 0 o).1.bus.published
                ≡ o.1.bus.published ++ failure_of config o.0)
      told (ok k, d) = (refl, sym (append-nil d.bus.published))
      told (err e, d) = (ap (λ n. (n, _)) (omega arith), refl)

  sync_each-InTurn :
      (configs : List AccountConfig) (total : ℕ) (d : Daemon)
      → (n : ℕ) × (events : List CoreEvent) × InTurn configs d n events
        × ((sync_each p host outside filter_engine show_sqlx configs total d).0 ≡ total + n)
        × ((sync_each p host outside filter_engine show_sqlx configs total d).1.bus.published
            ≡ d.bus.published ++ events)
  unfolding sync_each
  sync_each-InTurn [] total d = (0, [], (refl, refl), omega arith, sym (append-nil d.bus.published))
  sync_each-InTurn (config ∷ configs) total d =
      let (first, own, a, run, e) =
        sync_one-Attempted config (outside.get_secret config.keyring_secret_key) total d in
      let (rest, others, q, count, published) =
        sync_each-InTurn configs (total + first) (after config d) in
      (
        first + rest,
        own ++ others,
        (first, rest, own, others, a, q, refl, refl),
        rw (sync_each, run) (count ∙ omega arith),
        rw (sync_each, run) (published ∙ rw (e, append_assoc) refl),
      )

  -- What the listing of the accounts leads to.
  abbrev pub Batch :
      Result DatabaseError (List AccountConfig) → Daemon → ℕ → List CoreEvent → Type 0
  Batch (ok accounts) d n events = InTurn accounts d n events
  Batch (err e) d n events =
      (n ≡ 0)
      × (events
          ≡ error ("failed to list accounts for sync: " ⧺ show_database_error show_sqlx e) ∷ [])

  sync_listed-Batch :
      (r : Result DatabaseError (List AccountConfig)) (d : Daemon)
      → (events : List CoreEvent) × Batch r d
          (sync_listed p host outside filter_engine show_sqlx r d).0
          events
        × ((sync_listed p host outside filter_engine show_sqlx r d).1.bus.published
            ≡ d.bus.published ++ events)
  unfolding sync_listed process_command
  sync_listed-Batch (ok accounts) d =
      let (n, events, q, count, published) = sync_each-InTurn accounts 0 d in
      let exact : (sync_each p host outside filter_engine show_sqlx accounts 0 d).0 ≡ n =
        count ∙ omega arith in
      (events, rw exact q, published)
  sync_listed-Batch (err e) d = (_, (refl, refl), refl)

  -- The daemon when the accounts have been listed.
  abbrev pub listed : Daemon → Daemon
  listed d = record { db = (list_accounts host d.db).1; bus = process_command d.bus sync_all }

  -- A batch publishes one start and one completion for all accounts and leaves the engine idle. In
  -- between, every listed account is attempted in turn on the state that the one before it left,
  -- whether that one failed or not: it publishes only progress of its own, followed by an error with
  -- its name exactly if it failed, and the total is the sum of the counts of those that succeeded. If
  -- the accounts cannot be listed, there is one error and the total is 0.
  pub run_all_accounts_sync_lem :
      (d : Daemon)
      → (events : List CoreEvent) × Batch
          (list_accounts host d.db).0
          (listed d)
          (run_all_accounts_sync p host outside filter_engine show_sqlx d).0
          events
        × ((run_all_accounts_sync p host outside filter_engine show_sqlx d).1.bus.published
            ≡ d.bus.published ++ sync_started none ∷ (events ++ sync_completed none ∷ []))
        × ((run_all_accounts_sync p host outside filter_engine show_sqlx d).1.bus.state.status
            ≡ idle)
  unfolding run_all_accounts_sync complete_sync publish_event process_command
  run_all_accounts_sync_lem d =
      let (events, batch, e) = sync_listed-Batch (list_accounts host d.db).0 (listed d) in
      (events, batch, rw (e, append_assoc, append_assoc) refl, refl)

  sync_one-IsLedger :
      (config : AccountConfig) (r : Result VaultError String) (total : ℕ) (d : Daemon)
      → IsLedger host d.db
      → IsLedger host ((sync_one p host outside filter_engine show_sqlx config r total d).1.db)
  unfolding sync_one count_fetched
  sync_one-IsLedger config (err e) total d h = h
  sync_one-IsLedger config (ok password) total d h = counted (fetched config password d) (
      fetch_and_persist-IsLedger p host (build_mail_backend outside config password) filter_engine
        (some config.id) d h)
    where
      counted :
          (o : Result SyncError ℕ × Daemon)
          → IsLedger host o.1.db
          → IsLedger host
              ((count_fetched p host outside filter_engine show_sqlx config total o).1.db)
      counted (ok n, d) h = h
      counted (err e, d) h = h

  sync_each-IsLedger :
      (configs : List AccountConfig) (total : ℕ) (d : Daemon)
      → IsLedger host d.db
      → IsLedger host ((sync_each p host outside filter_engine show_sqlx configs total d).1.db)
  unfolding sync_each
  sync_each-IsLedger [] total d h = h
  sync_each-IsLedger (config ∷ configs) total d h =
      sync_each-IsLedger configs _ _
        (sync_one-IsLedger config (outside.get_secret config.keyring_secret_key) total d h)

  sync_listed-IsLedger :
      (r : Result DatabaseError (List AccountConfig)) (d : Daemon)
      → IsLedger host d.db
      → IsLedger host ((sync_listed p host outside filter_engine show_sqlx r d).1.db)
  unfolding sync_listed
  sync_listed-IsLedger (ok accounts) d h = sync_each-IsLedger accounts 0 d h
  sync_listed-IsLedger (err e) d h = h

  -- Whatever the servers serve, whichever accounts fail and whichever statements of the database
  -- fail, a batch leaves an execution ledger that verifies if the ledger verified before.
  pub run_all_accounts_sync-IsLedger :
      (d : Daemon)
      → IsLedger host d.db
      → IsLedger host ((run_all_accounts_sync p host outside filter_engine show_sqlx d).1.db)
  unfolding run_all_accounts_sync list_accounts
  run_all_accounts_sync-IsLedger d h = sync_listed-IsLedger (list_accounts host d.db).0 (listed d) (
      >>=-Keeps (IsLedger host) statement _ (statement-Keeps (IsLedger host) (λ db o h. h))
        (λ u db h. h) d.db h)
