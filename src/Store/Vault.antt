-- ===== src/Store/Vault.antt =====
-- crates/nuncio-store/src/vault.rs: the secret manager over a map of secrets, as `MockKeyring` keeps
-- it. The lock, and the credential store of the operating system in its place, may refuse a call.
pub mod Secrets
pub mod Keys
mod Tests
use nuncio.Common.{
  ℕ, ◌+◌, String, Bool, not, List, [], ◌∷◌, ◌++◌, Option, none, some, Result, ok, err,
  if◌then◌else◌, str_eq, keep, find, map_err,
}
use mathlib.Core.Option
use nuncio.Common.Text.{◌⧺◌}
use nuncio.Common.Action.{Action, ◌>>=◌, ◌>>◌, pure}

pub data VaultError : Type 0 where
  not_found storage_failed : String → VaultError

unfoldable pub show_vault_error : VaultError → String
show_vault_error (not_found key) = "secret for key '" ⧺ key ⧺ "' not found in vault"
show_vault_error (storage_failed e) = "vault storage operation failed: " ⧺ e

-- `refusals` is what the store has for the coming calls (`none` or no entry for none).
pub record Vault : Type 0 where
  pub storage : List (String × String)
  pub refusals : List (Option String)

abbrev pub Vaulted : Type 0 → Type 0
Vaulted A = Action Vault VaultError A

-- `HashMap::get`
unfoldable pub lookup : String → List (String × String) → Option String
lookup key storage = Option.map (λ e. e.1) (find (λ e. str_eq e.0 key) storage)

unfoldable pub without : String → List (String × String) → List (String × String)
without key storage = keep (λ e. not (str_eq e.0 key)) storage

-- What a call comes to, apart from its effect on the map.
unfoldable pub refusal : List (Option String) → Vaulted (Unit {0})
refusal [] v = (ok tt, v)
refusal (none ∷ rest) v = (ok tt, record v { refusals = rest })
refusal (some e ∷ rest) v = (err (storage_failed e), record v { refusals = rest })

unfoldable pub access : Vaulted (Unit {0})
unfolding refusal
access v = refusal v.refusals v

-- `ok_or_else`
unfoldable pub found : {A : Type 0} → String → Option A → Result VaultError A
found key (some a) = ok a
found key none = err (not_found key)

unfoldable pub get_secret : String → Vaulted String
get_secret key = do access; λ v. (found key (lookup key v.storage), v)

unfoldable pub set_secret : String → String → Vaulted (Unit {0})
set_secret key secret = do
  access
  λ v. (ok tt, record v { storage = without key v.storage ++ (key, secret) ∷ [] })

-- `remove`, and whether there was an entry.
unfoldable pub removed : String → Option String → Vaulted (Unit {0})
removed key (some secret) v = (ok tt, record v { storage = without key v.storage })
removed key none v = (err (not_found key), v)

unfoldable pub delete_secret : String → Vaulted (Unit {0})
delete_secret key = do access; λ v. removed key (lookup key v.storage) v

-- The codec (crate `hex`) and the random source, of as many bytes as asked.
pub record KeySource : Type 0 where
  pub hex_encode : List ℕ → String
  pub hex_decode : String → Result String (List ℕ)
  pub fill_bytes : (len : ℕ) → List ℕ

module _ (source : KeySource) where
  -- The `match` on what the vault holds.
  unfoldable pub key_or_create :
      String → ℕ → Result VaultError String × Vault → Result VaultError (List ℕ) × Vault
  key_or_create account len (ok hex_encoded, v) = (
    map_err (λ e. storage_failed ("corrupt key material for '" ⧺ account ⧺ "': " ⧺ e))
        (source.hex_decode hex_encoded),
    v,
  )
  key_or_create account len (err (not_found key), v) =
      let bytes = source.fill_bytes len in
      (set_secret account (source.hex_encode bytes) >> pure bytes) v
  key_or_create account len (err (storage_failed e), v) = (err (storage_failed e), v)

  unfoldable pub get_or_create_key_bytes : (account : String) (len : ℕ) → Vaulted (List ℕ)
  get_or_create_key_bytes account len v = key_or_create account len (get_secret account v)
