-- ===== src/Rpc/Accounts/Wire.antt =====
-- The messages of the service `Accounts` and their mapping, in crates/nunciod/src/grpc.rs. A request's
-- enumerations are decoded by prost, an unknown value as unspecified; its ports are `u32`.
use nuncio.Common.{ℕ, ◌^◌, String, Bool, Option, Result, ok, err, ◌>>=◌, if◌then◌else◌, ltb}
use nuncio.Core.Config.{AccountProtocol, TlsMode, AccountConfig}
use nuncio.Rpc.Service.{Status, invalid_argument}

pub data AccountProtocolProto : Type 0 where
  unspecified jmap imap_smtp : AccountProtocolProto

pub data TlsModeProto : Type 0 where
  unspecified implicit_tls start_tls plain : TlsModeProto

pub record AccountConfigProto : Type 0 where
  pub id : String
  pub name : String
  pub email_address : String
  pub protocol : AccountProtocolProto
  pub server_host : String
  pub server_port : ℕ
  pub use_tls : Bool
  pub imap_tls_mode : TlsModeProto
  pub smtp_tls_mode : TlsModeProto
  pub keyring_secret_key : String
  pub sync_interval_secs : ℕ
  pub smtp_host : String
  pub smtp_port : ℕ

unfoldable pub map_account_protocol_to_proto : AccountProtocol → AccountProtocolProto
map_account_protocol_to_proto AccountProtocol.jmap = AccountProtocolProto.jmap
map_account_protocol_to_proto AccountProtocol.imap_smtp = AccountProtocolProto.imap_smtp

unfoldable pub map_account_protocol_from_proto :
    AccountProtocolProto → Result Status AccountProtocol
map_account_protocol_from_proto AccountProtocolProto.jmap = ok AccountProtocol.jmap
map_account_protocol_from_proto AccountProtocolProto.imap_smtp = ok AccountProtocol.imap_smtp
map_account_protocol_from_proto AccountProtocolProto.unspecified =
    err (invalid_argument "account protocol is required")

unfoldable pub map_tls_mode_to_proto : TlsMode → TlsModeProto
map_tls_mode_to_proto TlsMode.implicit_tls = TlsModeProto.implicit_tls
map_tls_mode_to_proto TlsMode.start_tls = TlsModeProto.start_tls
map_tls_mode_to_proto TlsMode.plain = TlsModeProto.plain

unfoldable pub map_tls_mode_from_proto : TlsModeProto → Result Status TlsMode
map_tls_mode_from_proto TlsModeProto.implicit_tls = ok TlsMode.implicit_tls
map_tls_mode_from_proto TlsModeProto.start_tls = ok TlsMode.start_tls
map_tls_mode_from_proto TlsModeProto.plain = ok TlsMode.plain
map_tls_mode_from_proto TlsModeProto.unspecified = err (invalid_argument "tls mode is required")

unfoldable pub map_account_config_to_proto : AccountConfig → AccountConfigProto
map_account_config_to_proto config = record {
  id = config.id;
  name = config.name;
  email_address = config.email_address;
  protocol = map_account_protocol_to_proto config.protocol;
  server_host = config.server_host;
  server_port = config.server_port;
  use_tls = config.use_tls;
  imap_tls_mode = map_tls_mode_to_proto config.imap_tls_mode;
  smtp_tls_mode = map_tls_mode_to_proto config.smtp_tls_mode;
  keyring_secret_key = config.keyring_secret_key;
  sync_interval_secs = config.sync_interval_secs;
  smtp_host = config.smtp_host;
  smtp_port = config.smtp_port;
}

-- `u16::try_from`
unfoldable pub to_u16 : Status → ℕ → Result Status ℕ
to_u16 e n = if ltb n (2 ^ 16) then ok n else err e

unfoldable pub map_account_config_from_proto : AccountConfigProto → Result Status AccountConfig
map_account_config_from_proto config = do
  protocol ← map_account_protocol_from_proto config.protocol
  imap_tls_mode ← map_tls_mode_from_proto config.imap_tls_mode
  smtp_tls_mode ← map_tls_mode_from_proto config.smtp_tls_mode
  server_port ←
      to_u16 (invalid_argument "server_port must be in range 1..=65535") config.server_port
  smtp_port ← to_u16 (invalid_argument "smtp_port must be in range 1..=65535") config.smtp_port
  ok (record {
    id = config.id;
    name = config.name;
    email_address = config.email_address;
    protocol = protocol;
    server_host = config.server_host;
    server_port = server_port;
    smtp_host = config.smtp_host;
    smtp_port = smtp_port;
    use_tls = config.use_tls;
    imap_tls_mode = imap_tls_mode;
    smtp_tls_mode = smtp_tls_mode;
    keyring_secret_key = config.keyring_secret_key;
    sync_interval_secs = config.sync_interval_secs;
  })

pub record AddAccountRequest : Type 0 where
  pub config : Option AccountConfigProto
  pub password : String

pub record UpdateAccountRequest : Type 0 where
  pub config : Option AccountConfigProto
  pub password : Option String

pub record TestAccountConnectionResponse : Type 0 where
  pub imap_ok : Bool
  pub smtp_ok : Bool
  pub imap_error : Option String
  pub smtp_error : Option String
