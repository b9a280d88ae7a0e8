-- ===== src/Sync/Accounts/Tests.antt =====
-- Runs of the accounts' model: one account is set up, the password of the other is missing.
use nuncio.Common.{◌≡◌, List, [], ◌∷◌, ◌++◌, none, ok, err, if◌then◌else◌, str_eq}
use nuncio.Core.Config.{AccountConfig}
use nuncio.Core.EventBus.{CoreEvent, sync_started, sync_completed, idle}
use nuncio.Filter.Tests.{literal, engine}
use nuncio.Store.Accounts.{account_row, list_accounts}
use nuncio.Store.Ledger.Chain.{IsLedger}
use nuncio.Store.Tests.{plain_host, one_message, account, empty-IsLedger}
use nuncio.Store.Vault.{not_found}
use nuncio.Sync.Fetch.{Daemon}
use nuncio.Sync.Tests.{server, bus, show}
use nuncio.Sync.Accounts.{Outside, run_all_accounts_sync}
use nuncio.Sync.Accounts.Batch.{
  Batch, listed, run_all_accounts_sync_lem, run_all_accounts_sync-IsLedger,
}

abbrev outside : Outside
outside = record {
  get_secret = λ key. if str_eq key "nuncio/work" then ok "secret" else err (not_found key);
  imap_engine = λ id server_host server_port imap_tls_mode email_address password. server;
  jmap_engine = λ id server_host email_address password. server;
}

abbrev private_account : AccountConfig
private_account = record account { id = "private"; keyring_secret_key = "nuncio/private" }

abbrev two_accounts : Daemon
two_accounts = record {
  db = record one_message {
    accounts = account_row plain_host private_account ∷ account_row plain_host account ∷ [];
  };
  bus = bus;
}

run_all_accounts_sync_lem_example :
    (events : List CoreEvent) × Batch literal plain_host outside engine show
      (list_accounts plain_host two_accounts.db).0
      (listed literal plain_host outside engine show two_accounts)
      (run_all_accounts_sync literal plain_host outside engine show two_accounts).0
      events
    × ((run_all_accounts_sync literal plain_host outside engine show two_accounts).1.bus.published
        ≡ [] ++ sync_started none ∷ (events ++ sync_completed none ∷ []))
    × ((run_all_accounts_sync literal plain_host outside engine show
          two_accounts).1.bus.state.status
        ≡ idle)
run_all_accounts_sync_lem_example =
    run_all_accounts_sync_lem literal plain_host outside engine show two_accounts

run_all_accounts_sync-IsLedger_example :
    IsLedger plain_host
      ((run_all_accounts_sync literal plain_host outside engine show two_accounts).1.db)
run_all_accounts_sync-IsLedger_example =
    run_all_accounts_sync-IsLedger literal plain_host outside engine show two_accounts
      empty-IsLedger
