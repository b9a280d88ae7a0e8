-- ===== src/Core/Config.antt =====
-- crates/nuncio-core/src/config.rs: the configuration of an account and its validation.
pub mod Admission
use Prim.Native.Char.{code}
use Prim.Native.String
use nuncio.Common.{
  ℕ, String, Bool, true, false, not, ◌||◌, Option, none, some, Result, ok, err, ◌>>◌, if◌then◌else◌,
  ltb, ◌==◌,
}
use nuncio.Common.Text.{trim, contains_char, ◌⧺◌}

pub data AccountProtocol : Type 0 where
  jmap imap_smtp : AccountProtocol

pub data TlsMode : Type 0 where
  implicit_tls start_tls plain : TlsMode

pub data ConfigError : Type 0 where
  empty_field : (field : String) → ConfigError
  invalid_email_format invalid_port sync_interval_too_short : ConfigError

unfoldable pub show_config_error : ConfigError → String
show_config_error (empty_field field) = "field '" ⧺ field ⧺ "' cannot be empty"
show_config_error invalid_email_format = "invalid email address format"
show_config_error invalid_port = "invalid server port number"
show_config_error sync_interval_too_short = "sync interval must be at least 10 seconds"

-- `server_port` and `smtp_port` are `u16`, `sync_interval_secs` is `u64`.
pub record AccountConfig : Type 0 where
  pub id : String
  pub name : String
  pub email_address : String
  pub protocol : AccountProtocol
  pub server_host : String
  pub server_port : ℕ
  pub smtp_host : String
  pub smtp_port : ℕ
  pub use_tls : Bool
  pub imap_tls_mode : TlsMode
  pub smtp_tls_mode : TlsMode
  pub keyring_secret_key : String
  pub sync_interval_secs : ℕ

abbrev pub min_sync_interval_secs : ℕ
min_sync_interval_secs = 10

-- `if test { return Err(e) }`
abbrev pub refuse : Bool → ConfigError → Result ConfigError (Unit {0})
refuse true e = err e
refuse false e = ok tt

-- `trim().is_empty()`
unfoldable pub is_blank : String → Bool
is_blank s = blank (trim s)
  where
    blank : String → Bool
    blank String.[] = true
    blank (String.◌∷◌ c t) = false

-- `split_once('@')`, the second half.
unfoldable pub domain_part : String → Option String
domain_part String.[] = none
domain_part (String.◌∷◌ c s) = if code c == b'@' then some s else domain_part s

-- `is_some_and(|(_, domain)| domain.contains('.'))`
unfoldable pub has_dotted_domain : Option String → Bool
has_dotted_domain none = false
has_dotted_domain (some domain) = contains_char domain b'.'

unfoldable pub validate_account : AccountConfig → Result ConfigError (Unit {0})
validate_account a =
    refuse (is_blank a.id) (empty_field "id")
    >> (refuse (is_blank a.name) (empty_field "name")
        >> (refuse (is_blank a.email_address) (empty_field "email_address")
            >> (refuse
                  (not (contains_char a.email_address b'@')
                    || not (has_dotted_domain (domain_part a.email_address)))
                  invalid_email_format
                >> (refuse (is_blank a.server_host) (empty_field "server_host")
                    >> (refuse (a.server_port == 0) invalid_port
                        >> (refuse (is_blank a.smtp_host) (empty_field "smtp_host")
                            >> (refuse (a.smtp_port == 0) invalid_port
                                >> (refuse (is_blank a.keyring_secret_key)
                                      (empty_field "keyring_secret_key")
                                    >> refuse (ltb a.sync_interval_secs min_sync_interval_secs)
                                        sync_interval_too_short))))))))
