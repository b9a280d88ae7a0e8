-- ===== src/Rpc/Accounts/Tests.antt =====
-- Runs of the account handlers on a database of one account and a vault that holds its password.
use nuncio.Common.{◌≡◌, ◌↔◌, ◌<◌, ◌^◌, refl, String, [], ◌∷◌, none, some, ok}
use nuncio.Store.Database.{SqlxError}
use nuncio.Store.Accounts.{account_row}
use nuncio.Store.Tests.{plain_host, one_message, account}
use nuncio.Store.Vault.{lookup}
use nuncio.Rpc.Service.{Service}
use nuncio.Rpc.Accounts.{add_account, update_account, remove_account, rotate_credential_and_persist}
use nuncio.Rpc.Accounts.Wire.{
  AddAccountRequest, UpdateAccountRequest, map_account_config_to_proto,
  map_account_config_from_proto,
}
use nuncio.Rpc.Accounts.RoundTrip.{map_account_config_from_proto_iff}
use nuncio.Rpc.Accounts.Added.{AddOutcome, add_account_lem}
use nuncio.Rpc.Accounts.Rotation.{rotate_loses_unread}
use nuncio.Rpc.Accounts.Updated.{UpdateOutcome, update_account_lem}
use nuncio.Rpc.Accounts.Removed.{RemoveOutcome, remove_account_lem}

abbrev show : SqlxError → String
show e = "failed"

-- The next statement of the database and the next call of the vault fail.
abbrev service : Service
service = record {
  db = record one_message {
    accounts = account_row plain_host account ∷ [];
    outcomes = some "disk full" ∷ [];
  };
  secrets = record { storage = ("nuncio/work", "old") ∷ []; refusals = some "locked" ∷ [] };
}

map_account_config_from_proto_iff_example :
    (map_account_config_from_proto (map_account_config_to_proto account) ≡ ok account) ↔ (
      (map_account_config_to_proto account ≡ map_account_config_to_proto account)
      × (account.server_port < 2 ^ 16)
      × (account.smtp_port < 2 ^ 16))
map_account_config_from_proto_iff_example =
    map_account_config_from_proto_iff (map_account_config_to_proto account) account

abbrev addition : AddAccountRequest
addition = record { config = some (map_account_config_to_proto account); password = "new" }

add_account_lem_example :
    AddOutcome plain_host show addition service (add_account plain_host show addition service)
add_account_lem_example = add_account_lem plain_host show addition service

abbrev change : UpdateAccountRequest
change = record { config = some (map_account_config_to_proto account); password = some "new" }

update_account_lem_example :
    UpdateOutcome plain_host show change service (update_account plain_host show change service)
update_account_lem_example = update_account_lem plain_host show change service

remove_account_lem_example :
    RemoveOutcome plain_host show "work" service (remove_account plain_host show "work" service)
remove_account_lem_example = remove_account_lem plain_host show "work" service

rotate_loses_unread_example :
    (lookup "nuncio/work"
        ((rotate_credential_and_persist plain_host show account "new" service).1.secrets.storage)
      ≡ none)
    × ((rotate_credential_and_persist plain_host show account "new" service).1.db.accounts
        ≡ service.db.accounts)
rotate_loses_unread_example =
    rotate_loses_unread plain_host show account "new" service "locked" "disk full" [] refl refl
