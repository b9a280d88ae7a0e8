-- ===== src/Store/Outbox.antt =====
-- crates/nuncio-filter/src/outbox.rs, and the outbox and ledger records of
-- crates/nuncio-filter/src/ast.rs.
pub mod Backoff
use nuncio.Common.{ℕ, ◌+◌, ◌*◌, ◌/◌, ◌%◌, ◌^◌, ◌-◌, min, String, List, Option, none, some, take}
use mathlib.Core.List.{reverse}
use nuncio.Common.Int.{ℤ, pos, negsuc}
use nuncio.Common.Text.{◌⧺◌}
use nuncio.Core.WormAudit.{be_bytes_ℤ}
use nuncio.Store.Host.{Host}

pub record PendingRemoteMutation : Type 0 where
  pub id : String
  pub rule_id : String
  pub message_id : String
  pub mutation_type : String
  pub payload : String
  pub status : String
  pub retry_count : ℤ
  pub created_at : ℤ

pub record FilterExecutionLog : Type 0 where
  pub id : ℤ
  pub rule_id : String
  pub message_id : String
  pub action_taken : String
  pub matched_at : ℤ
  pub prev_hash : String
  pub hash : String

abbrev pub max_retries : ℤ
max_retries = pos 5

abbrev pub base_backoff_ms : ℕ
base_backoff_ms = 500

-- `retry_count as u32`
unfoldable pub as_u32 : ℤ → ℕ
as_u32 (pos n) = n % 2 ^ 32
as_u32 (negsuc n) = 2 ^ 32 - 1 - n % 2 ^ 32

-- The arithmetic is that of `u64`.
unfoldable pub calculate_backoff_ms : ℤ → ℕ
unfolding as_u32
calculate_backoff_ms retry_count =
    let exponent = min (as_u32 retry_count) 10 in
    let factor = 2 ^ exponent % 2 ^ 64 in
    let base = base_backoff_ms * factor % 2 ^ 64 in
    let jitter = base / 4 % 100 in (base + jitter) % 2 ^ 64

module _ (host : Host) where
  -- `unwrap_or(0)`
  or_zero : Option ℤ → ℤ
  or_zero (some n) = n
  or_zero none = pos 0

  -- `tick` numbers the reading of the clock.
  pub uuid_simple : (tick : ℕ) → String
  unfolding or_zero
  uuid_simple tick =
      host.hex_encode (take 8 (host.sha256 (reverse (be_bytes_ℤ (or_zero (host.now_nanos tick))))))

  -- The clock is read once for the time and once for the id.
  unfoldable pub create_mutation :
      (tick : ℕ) (rule_id message_id action_type : String) (target : Option String)
      → PendingRemoteMutation
  unfolding uuid_simple
  create_mutation tick rule_id message_id action_type target = record {
    id = "mut-" ⧺ uuid_simple (tick + 1);
    rule_id = rule_id;
    message_id = message_id;
    mutation_type = action_type;
    payload = host.payload_json action_type target;
    status = "pending";
    retry_count = pos 0;
    created_at = host.now tick;
  }
