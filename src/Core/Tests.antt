-- ===== src/Core/Tests.antt =====
-- Runs of the core crate's model on concrete commands and records.
use nuncio.Common.{map, true, false, ℕ}
use nuncio.Core.Update.{
  is_newer_version, is_newer, compare_at, parse_v, without_v, or_zero, parse_u64, digits_value,
}
use nuncio.Core.Update.Order.{Precedes}
use nuncio.Core.Update.Printed.{tagged, version_of, is_newer_version-tagged}
use nuncio.Common.{◌≡◌, refl, ◌≤◌, ◌↔◌, List, [], ◌∷◌, ◌++◌, none, true, ok, arith, ℕ, length}
use nuncio.Common.Int.{pos}
use nuncio.Common.Text
use nuncio.Common.Text.{as_bytes}
use nuncio.Core.EventBus.{
  EventBus, with_initial_state, CoreCommand, sync_account, mark_read, shutdown, usize_max, idle,
}
use nuncio.Core.EventBus.Lifecycle.{process_all, process_all_lem, announcements, status_after}
use nuncio.Core.Config.{AccountConfig, AccountProtocol, TlsMode, validate_account}
use nuncio.Core.Config.Admission.{IsUsable, validate_account_iff}
use nuncio.Core.Policy.{
  McpAgentPolicy, default_policy, is_folder_allowed, forbids, names_folder, forbidden, allows,
  is_allowing,
}
use nuncio.Core.Policy.Folders.{Denies, Opens, is_folder_allowed_iff}
use nuncio.Common.{false, All, String}
use nuncio.Common.Text.{eq_ignore_ascii_case}
use nuncio.Core.WormAudit.{
  Crypto, WormAuditRecord, compute_hmac, verify_worm_chain, verify_from, verify_integrity,
  signed_bytes,
}
use nuncio.Core.WormAudit.Chain.{IsChain, verify_worm_chain_iff, truncation_accepted}
use nuncio.Core.WormAudit.Tampering.{boundary_not_signed}

abbrev working_day : List CoreCommand
working_day = sync_account "work" ∷ mark_read "msg-1" true ∷ shutdown ∷ []

abbrev started : EventBus
started =
    with_initial_state
      (record { status = idle; accounts_loaded = 1; unread_count = 3; last_error = none })

process_all_lem_example :
    ((process_all started working_day).published ≡ [] ++ announcements working_day)
    × ((process_all started working_day).state.status ≡ status_after idle working_day)
    × ((process_all started working_day).state.unread_count ≤ usize_max)
process_all_lem_example = process_all_lem started working_day (omega arith)

-- A code that is only the number of bytes.
abbrev counting : Crypto
counting = record {
  hmac = λ key bytes. ok (Text.decimal (length bytes));
  sha256 = λ bytes. Text.decimal (length bytes);
}

abbrev key : List ℕ
key = 7 ∷ []

abbrev first : WormAuditRecord
first = record {
  sequence = 1;
  timestamp_ns = pos 10;
  actor = "system";
  action = "mail.send";
  data_hash = "3";
  previous_block_hash = "GENESIS";
  record_hmac = "39";
}

abbrev second : WormAuditRecord
second = record {
  sequence = 2;
  timestamp_ns = pos 20;
  actor = "system";
  action = "mail.send";
  data_hash = "3";
  previous_block_hash = "39";
  record_hmac = "34";
}

accepted : verify_worm_chain counting (first ∷ second ∷ []) key ≡ ok tt
unfolding verify_worm_chain verify_from verify_integrity compute_hmac signed_bytes as_bytes
    Text.decimal
accepted = refl

accepted_one : verify_worm_chain counting (first ∷ []) key ≡ ok tt
unfolding verify_worm_chain verify_from verify_integrity compute_hmac signed_bytes as_bytes
    Text.decimal
accepted_one = refl

verify_worm_chain_iff_example :
    (verify_worm_chain counting (first ∷ second ∷ []) key ≡ ok tt)
    ↔ IsChain counting key "GENESIS" (first ∷ second ∷ [])
verify_worm_chain_iff_example = verify_worm_chain_iff counting key (first ∷ second ∷ [])

truncation_accepted_example : verify_worm_chain counting (first ∷ []) key ≡ ok tt
truncation_accepted_example = truncation_accepted counting key (first ∷ []) (second ∷ []) accepted

boundary_not_signed_example :
    compute_hmac counting key 1 (pos 10) "system" "mail.send" "3" "GENESIS"
    ≡ compute_hmac counting key 1 (pos 10) "sys" "temmail.send" "3" "GENESIS"
boundary_not_signed_example =
    boundary_not_signed counting key 1 (pos 10) "sys" "tem" "mail.send" "3" "GENESIS"

abbrev work : AccountConfig
work = record {
  id = "work";
  name = "Work";
  email_address = "alice@nuncio.mx";
  protocol = AccountProtocol.imap_smtp;
  server_host = "imap.nuncio.mx";
  server_port = 993;
  smtp_host = "smtp.nuncio.mx";
  smtp_port = 465;
  use_tls = true;
  imap_tls_mode = TlsMode.implicit_tls;
  smtp_tls_mode = TlsMode.implicit_tls;
  keyring_secret_key = "nuncio/work";
  sync_interval_secs = 60;
}

validate_account_iff_example : (validate_account work ≡ ok tt) ↔ IsUsable work
validate_account_iff_example = validate_account_iff work

-- Everything but the drafts.
abbrev no_drafts : McpAgentPolicy
no_drafts = record default_policy { allowed_folders = "*" ∷ "!Drafts" ∷ [] }

drafts_closed : is_folder_allowed no_drafts "drafts" ≡ false
unfolding is_folder_allowed forbids names_folder forbidden eq_ignore_ascii_case
drafts_closed = refl

inbox_open : is_folder_allowed no_drafts "inbox" ≡ true
unfolding is_folder_allowed forbids names_folder forbidden allows is_allowing eq_ignore_ascii_case
inbox_open = refl

is_folder_allowed_iff_example : (is_folder_allowed no_drafts "inbox" ≡ true) ↔ (
    All (λ q. Denies "inbox" q → ⊥) ("*" ∷ "!Drafts" ∷ [])
    × ((before : List String) × (q : String) × (after : List String) × ("*" ∷ "!Drafts" ∷ []
          ≡ before ++ q ∷ after)
        × Opens "inbox" q))
is_folder_allowed_iff_example = is_folder_allowed_iff no_drafts "inbox"

is_newer_version_runs :
    map (is_newer_version "v1.9.0") ("1.10" ∷ "1.9" ∷ "v1.8.9" ∷ []) ≡ true ∷ false ∷ false ∷ []
unfolding is_newer_version is_newer compare_at parse_v without_v or_zero parse_u64 digits_value
    Text.split
is_newer_version_runs = refl

is_newer_version-tagged_example :
    (is_newer_version
        (tagged true (version_of 1 (9 ∷ 0 ∷ [])))
        (tagged false (version_of 1 (10 ∷ [])))
      ≡ true)
    ↔ Precedes (1 ∷ 9 ∷ 0 ∷ []) (1 ∷ 10 ∷ [])
is_newer_version-tagged_example =
    is_newer_version-tagged true 1 (9 ∷ 0 ∷ []) false 1 (10 ∷ [])
      (omega arith, (omega arith, (omega arith, tt))) (omega arith, (omega arith, tt))
