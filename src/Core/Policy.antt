-- ===== src/Core/Policy.antt =====
-- crates/nuncio-core/src/mcp_policy.rs: what an agent may see. The regex crate and the texts that
-- its content filter writes are left out.
pub mod Folders
use Prim.Native.Char.{code}
use Prim.Native.String
use nuncio.Common.{
  String, Bool, true, false, not, ◌&&◌, ◌||◌, List, [], ◌∷◌, Option, none, some, Result, ok, err,
  if◌then◌else◌, any, ◌==◌, str_eq,
}
use nuncio.Common.Text.{◌⧺◌, contains_char, eq_ignore_ascii_case}

pub data DataType : Type 0 where
  mail calendar contacts filter_rules telemetry : DataType

pub record AgentPermissions : Type 0 where
  pub read_mail : Bool
  pub send_mail : Bool
  pub read_calendar : Bool
  pub write_calendar : Bool
  pub read_contacts : Bool
  pub manage_filters : Bool
  pub read_telemetry : Bool

-- `Default`, which is also `read_only`.
abbrev pub read_only : AgentPermissions
read_only = record {
  read_mail = true;
  send_mail = false;
  read_calendar = true;
  write_calendar = false;
  read_contacts = true;
  manage_filters = false;
  read_telemetry = true;
}

abbrev pub full_access : AgentPermissions
full_access = record {
  read_mail = true;
  send_mail = true;
  read_calendar = true;
  write_calendar = true;
  read_contacts = true;
  manage_filters = true;
  read_telemetry = true;
}

-- The set of data types is a list of them.
pub record McpAgentPolicy : Type 0 where
  pub agent_id : String
  pub name : String
  pub allowed_accounts : List String
  pub allowed_folders : List String
  pub allowed_data_types : List DataType
  pub permissions : AgentPermissions
  pub redact_sensitive_patterns : Bool

abbrev pub default_policy : McpAgentPolicy
default_policy = record {
  agent_id = "default-agent";
  name = "Default MCP Agent Policy";
  allowed_accounts = "*" ∷ [];
  allowed_folders = "*" ∷ [];
  allowed_data_types = mail ∷ calendar ∷ contacts ∷ telemetry ∷ [];
  permissions = read_only;
  redact_sensitive_patterns = true;
}

abbrev pub unrestricted : String → McpAgentPolicy
unrestricted agent_id = record {
  agent_id = agent_id;
  name = "Unrestricted Policy for " ⧺ agent_id;
  allowed_accounts = "*" ∷ [];
  allowed_folders = "*" ∷ [];
  allowed_data_types = mail ∷ calendar ∷ contacts ∷ filter_rules ∷ telemetry ∷ [];
  permissions = full_access;
  redact_sensitive_patterns = false;
}

-- `strip_prefix('!')`
unfoldable pub forbidden : String → Option String
forbidden String.[] = none
forbidden (String.◌∷◌ c s) = if code c == b'!' then some s else none

unfoldable pub names_folder : String → Option String → Bool
names_folder folder_id none = false
names_folder folder_id (some f) = eq_ignore_ascii_case f folder_id

-- The tests of the two loops.
unfoldable pub forbids : String → String → Bool
forbids folder_id pattern = names_folder folder_id (forbidden pattern)

unfoldable pub is_allowing : Option String → Bool
is_allowing none = true
is_allowing (some f) = false

unfoldable pub allows : String → String → Bool
allows folder_id pattern =
    is_allowing (forbidden pattern)
    && (str_eq pattern "*" || eq_ignore_ascii_case pattern folder_id)

-- Each loop returns at its first hit.
unfoldable pub is_folder_allowed : McpAgentPolicy → String → Bool
is_folder_allowed policy folder_id =
    if any (forbids folder_id) policy.allowed_folders
    then false
    else any (allows folder_id) policy.allowed_folders
