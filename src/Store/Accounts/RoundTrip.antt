-- ===== src/Store/Accounts/RoundTrip.antt =====
-- What `get_account` of crates/nuncio-store/src/db.rs returns after `save_account`.
use nuncio.Common.{
  ℕ, ◌^◌, ◌<◌, ◌≡◌, refl, ap, ◌∙◌, String, Bool, true, false, not, List, [], ◌∷◌, ◌++◌, map, some,
  ok, if◌then◌else◌, str_eq, eq_iff, keep, find, arith, if_false_intro, if_true_intro,
}
use nuncio.Common.Int.{pos, eq_ℤ}
use nuncio.Core.Config.{AccountConfig, TlsMode, implicit_tls, start_tls, plain}
use nuncio.Store.Host.{Host}
use nuncio.Store.Database.{Database, AccountRow, statement, outcome}
use nuncio.Store.Accounts.{
  tls_mode_to_db, tls_mode_from_db, as_i64, as_u64, as_u16, account_row, account_of, save_account,
  list_accounts, get_account, or_else, resolved_port,
}

tls_mode_roundtrip : (m : TlsMode) → tls_mode_from_db (tls_mode_to_db m) ≡ m
unfolding tls_mode_from_db tls_mode_to_db
tls_mode_roundtrip implicit_tls = refl
tls_mode_roundtrip start_tls = refl
tls_mode_roundtrip plain = refl

u64_roundtrip : (n : ℕ) → n < 2 ^ 64 → as_u64 (as_i64 n) ≡ n
unfolding as_u64 as_i64
u64_roundtrip n h = ground arith

u16_roundtrip : (n : ℕ) → n < 2 ^ 16 → as_u16 (pos n) ≡ n
unfolding as_u16
u16_roundtrip n h = omega (arith, h)

bool_roundtrip : (b : Bool) → not (eq_ℤ (if b then pos 1 else pos 0) (pos 0)) ≡ b
bool_roundtrip true = refl
bool_roundtrip false = refl

module _ (host : Host) where
  -- The row of an account reads back as the account.
  account_of-account_row :
      (config : AccountConfig)
      → config.server_port < 2 ^ 16
      → config.smtp_port < 2 ^ 16
      → config.sync_interval_secs < 2 ^ 64
      → host.protocol_from_json (host.protocol_json config.protocol) ≡ some config.protocol
      → account_of host (account_row host config) ≡ config
  unfolding account_of account_row or_else resolved_port
  account_of-account_row config p q t j = rw (
    j,
    u16_roundtrip config.server_port p,
    u16_roundtrip config.smtp_port q,
    u64_roundtrip config.sync_interval_secs t,
    bool_roundtrip config.use_tls,
    tls_mode_roundtrip config.imap_tls_mode,
    tls_mode_roundtrip config.smtp_tls_mode,
  )

  -- One round of the deletion and of the search after it.
  skipped :
      (b : Bool) (id : String) (r : AccountRow) (xs ys : List AccountRow)
      → str_eq r.id id ≡ b
      → find (λ a. str_eq a.id id) (map (account_of host) ((if not b then r ∷ xs else xs) ++ ys))
        ≡ find (λ a. str_eq a.id id) (map (account_of host) (xs ++ ys))
  unfolding account_of
  skipped true id r xs ys e = refl
  skipped false id r xs ys e = if_false_intro (str_eq r.id id) _ _ e refl

  found_last :
      (id : String) (rows : List AccountRow) (row : AccountRow)
      → row.id ≡ id
      → find
          (λ a. str_eq a.id id)
          (map (account_of host) (keep (λ r. not (str_eq r.id id)) rows ++ row ∷ []))
        ≡ some (account_of host row)
  unfolding account_of
  found_last id [] row e = if_true_intro (str_eq row.id id) _ _ ((eq_iff row.id id).1 e) refl
  found_last id (r ∷ rows) row e =
      skipped (str_eq r.id id) id r _ (row ∷ []) refl ∙ found_last id rows row e

-- When the database answers, an account that was saved, whatever was stored under its id before, is
-- what a lookup of its id returns, provided that its ports and interval fit their machine words and
-- that JSON reads back the protocol it wrote.
pub save_account-get_account :
    (host : Host) (config : AccountConfig) (db : Database)
    → db.outcomes ≡ []
    → config.server_port < 2 ^ 16
    → config.smtp_port < 2 ^ 16
    → config.sync_interval_secs < 2 ^ 64
    → host.protocol_from_json (host.protocol_json config.protocol) ≡ some config.protocol
    → (get_account host config.id ((save_account host config db).1)).0 ≡ ok (some config)
unfolding get_account list_accounts save_account statement outcome account_row
save_account-get_account host config db quiet p q t j =
    let same : db ≡ record db { outcomes = [] } = ap (λ o. record db { outcomes = o }) quiet in
    ap (λ d. (get_account host config.id ((save_account host config d).1)).0) same
    ∙ ap ok (
        found_last host config.id db.accounts (account_row host config) refl
        ∙ ap some (account_of-account_row host config p q t j))
