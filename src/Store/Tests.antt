-- ===== src/Store/Tests.antt =====
-- Runs of the store's model on a small host and a database of one account.
use Prim.Native.Char.{code}
use nuncio.Common.{
  ℕ, ◌+◌, ◌-◌, ◌*◌, ◌/◌, ◌%◌, ◌≤◌, ◌≡◌, refl, String, List, [], ◌∷◌, Option, none, some, ok, ltb,
  if◌then◌else◌, ◌==◌, arith,
}
use mathlib.Core.Option
use nuncio.Common.Int.{pos}
use nuncio.Common.Text.{◌⧺◌, decimal, as_bytes}
use nuncio.Store.Host.{Host}
use nuncio.Store.Cipher.{encrypt_text_at_rest, decrypt_text_at_rest}
use nuncio.Store.Cipher.RoundTrip.{encrypt_text_at_rest-roundtrip}
use nuncio.Store.Outbox.{calculate_backoff_ms}
use nuncio.Store.Outbox.Backoff.{calculate_backoff_ms_bounds}
use nuncio.Store.Database.{Database, MessageRow}
use nuncio.Common.{map, All, inl, str_eq}
use nuncio.Core.Config.{AccountProtocol, AccountConfig, TlsMode}
use nuncio.Common.{true, false, eq_iff}
use nuncio.Store.Accounts.{get_account, save_account}
use nuncio.Store.Accounts.RoundTrip.{save_account-get_account}
use nuncio.Common.Sort.{sort_by_key}
use nuncio.Store.Outbox.{PendingRemoteMutation}
use nuncio.Store.Database.{statement, outcome}
use nuncio.Store.Queue.{list_pending_mutations, update_mutation_status, with_status}
use nuncio.Store.Worker.{next_retry, retry_item, retry_all, retry_listed, worker_round}
use nuncio.Store.Worker.Drained.{rounds, worker_gives_up}
use nuncio.Store.Worker.Honest.{IsOpen, request, worker_round_honest}
use nuncio.Store.Ledger.{chain_from}
use nuncio.Store.Ledger.Chain.{IsLedger}

abbrev hex_digit : ℕ → String
hex_digit n =
    if ltb n 10
    then decimal n
    else if n == 10
    then "a"
    else if n == 11
    then "b"
    else if n == 12
    then "c"
    else if n == 13
    then "d"
    else if n == 14
    then "e"
    else "f"

abbrev pub hex : List ℕ → String
hex [] = ""
hex (b ∷ bs) = hex_digit (b / 16) ⧺ (hex_digit (b % 16) ⧺ hex bs)

abbrev nibble : ℕ → ℕ
nibble c = if ltb c 97 then c - 48 else c - 87

abbrev pub unhex : String → Option (List ℕ)
unhex String.[] = some []
unhex (String.◌∷◌ c String.[]) = none
unhex (String.◌∷◌ c (String.◌∷◌ d s)) =
    Option.map (λ bs. (nibble (code c) * 16 + nibble (code d)) ∷ bs) (unhex s)

-- Text of digits.
abbrev digits : List ℕ → String
digits [] = ""
digits (b ∷ bs) = decimal (b - 48) ⧺ digits bs

abbrev sum : List ℕ → ℕ
sum [] = 0
sum (b ∷ bs) = b + sum bs

-- A host whose cipher adds nothing and whose code is a checksum.
abbrev pub plain_host : Host
plain_host = record {
  now = λ n. pos (1700000000 + n);
  now_nanos = λ n. some (pos (1000000 + n));
  random = λ n. n ∷ 2 ∷ 3 ∷ 4 ∷ 5 ∷ 6 ∷ 7 ∷ 8 ∷ 9 ∷ 10 ∷ 11 ∷ 12 ∷ [];
  aes_encrypt = λ key nonce bytes. ok bytes;
  aes_decrypt = λ key nonce bytes. ok bytes;
  sha256 = λ bytes. bytes;
  hmac_sha256 = λ key bytes. some (sum bytes % 256 ∷ []);
  hex_encode = hex;
  hex_decode = unhex;
  from_utf8 = λ bytes. some (digits bytes);
  payload_json = λ action_type target. action_type;
  protocol_json = λ p. elim p [ AccountProtocol.jmap ↦ "j" | AccountProtocol.imap_smtp ↦ "i" ];
  protocol_from_json =
      λ s. if str_eq s "j" then some AccountProtocol.jmap else some AccountProtocol.imap_smtp;
}

abbrev nonce : List ℕ
nonce = plain_host.random 1

encrypt_text_at_rest-roundtrip_example :
    decrypt_text_at_rest plain_host (7 ∷ []) (encrypt_text_at_rest plain_host (7 ∷ []) nonce "2026")
    ≡ "2026"
unfolding as_bytes decimal
encrypt_text_at_rest-roundtrip_example =
    encrypt_text_at_rest-roundtrip plain_host (7 ∷ []) nonce (as_bytes "2026") "2026" refl refl refl
      (λ e. cc e) refl refl

calculate_backoff_ms_bounds_example :
    (525 ≤ calculate_backoff_ms (pos 2))
    × (calculate_backoff_ms (pos 2) ≤ calculate_backoff_ms (pos 4))
    × (calculate_backoff_ms (pos 4) ≤ 512000)
calculate_backoff_ms_bounds_example = calculate_backoff_ms_bounds 2 4 (omega arith) (omega arith)

abbrev pub stored_message : MessageRow
stored_message = record {
  id = "msg-1";
  account_id = "work";
  folder_id = "inbox";
  subject = "weekly report";
  sender = "alice@nuncio.mx";
  recipient = "bob@nuncio.mx";
  received_at = pos 1700000000;
  read_flag = 0;
  body_plain = none;
  body_html = none;
}

abbrev pub one_message : Database
one_message = record {
  storage_key = 7 ∷ [];
  ledger_key = 9 ∷ [];
  worm_key = 11 ∷ [];
  accounts = [];
  messages = stored_message ∷ [];
  messages_fts = [];
  folder_sync_state = [];
  filter_rules = [];
  pending_remote_mutations = [];
  filter_execution_logs = [];
  worm_audit_records = [];
  outcomes = [];
  ticks = 0;
  randoms = 0;
}

pub empty-IsLedger : IsLedger plain_host one_message
unfolding chain_from
empty-IsLedger = refl

abbrev waiting : PendingRemoteMutation
waiting = record {
  id = "mut-1";
  rule_id = "rule-1";
  message_id = "msg-1";
  mutation_type = "FLAG";
  payload = "FLAG";
  status = "pending";
  retry_count = pos 5;
  created_at = pos 1700000000;
}

abbrev queued : Database
queued = record one_message { pending_remote_mutations = waiting ∷ [] }

-- After five retries an item is given up.
gives_up : map (λ m. m.status) (worker_round queued).pending_remote_mutations ≡ "failed" ∷ []
unfolding worker_round retry_listed retry_all retry_item next_retry list_pending_mutations
    update_mutation_status statement outcome sort_by_key with_status
gives_up = refl

worker_round_honest_example :
    (map request (worker_round queued).pending_remote_mutations ≡ request waiting ∷ [])
    × All IsOpen (worker_round queued).pending_remote_mutations
worker_round_honest_example = worker_round_honest queued (inl refl, tt)

-- Two items with four rounds left between them.
abbrev two_queued : Database
two_queued = record one_message {
  pending_remote_mutations = waiting ∷ record waiting { id = "mut-2"; retry_count = pos 3 } ∷ [];
}

differ : {A : Type 0} (a b : String) → str_eq a b ≡ false → a ≡ b → A
differ a b f e = cc (f, (eq_iff a b).1 e)

worker_gives_up_example :
    (map request (rounds 4 two_queued).pending_remote_mutations
      ≡ map request two_queued.pending_remote_mutations)
    × All (λ m. m.status ≡ "failed") (rounds 4 two_queued).pending_remote_mutations
worker_gives_up_example =
    worker_gives_up two_queued 4 refl
      (
        (λ e. refl, (λ e. differ "mut-2" "mut-1" refl e, tt)),
        ((λ e. differ "mut-1" "mut-2" refl e, (λ e. refl, tt)), tt),
      )
      (inl refl, (inl refl, tt)) (omega arith)

abbrev pub account : AccountConfig
account = record {
  id = "work";
  name = "Work";
  email_address = "alice@nuncio.mx";
  protocol = AccountProtocol.jmap;
  server_host = "jmap.nuncio.mx";
  server_port = 443;
  smtp_host = "smtp.nuncio.mx";
  smtp_port = 465;
  use_tls = true;
  imap_tls_mode = TlsMode.start_tls;
  smtp_tls_mode = TlsMode.implicit_tls;
  keyring_secret_key = "nuncio/work";
  sync_interval_secs = 60;
}

save_account-get_account_example :
    (get_account plain_host "work" ((save_account plain_host account one_message).1)).0
    ≡ ok (some account)
save_account-get_account_example =
    save_account-get_account plain_host account one_message refl (omega arith) (omega arith)
      (omega arith) refl
