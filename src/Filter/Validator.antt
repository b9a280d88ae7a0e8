-- ===== src/Filter/Validator.antt =====
-- crates/nuncio-filter/src/validator.rs: the six passes that a rule must satisfy before it is stored.
pub mod Checks
pub mod Fields
pub mod Limits
pub mod Admission
use nuncio.Common.{ok, err, ◌>>=◌, ◌>>◌}
use nuncio.Filter.Ast.{FilterRule}
use nuncio.Filter.Platform.{Platform}
use nuncio.Filter.Validator.Checks.{Check, ValidationOptions}
use nuncio.Filter.Validator.Fields.{pass1_field_types, pass2_folder_references, pass3_rfc5322}
use nuncio.Filter.Validator.Limits.{
  pass4_redos_and_depth, pass5_contradictions, pass6_action_security,
}

module _ (p : Platform) where
  unfoldable pub validate : FilterRule → ValidationOptions → Check
  validate rule opts = do
    pass1_field_types rule.conditions
    pass2_folder_references rule.conditions rule.actions opts.available_folders
    pass3_rfc5322 rule.conditions rule.actions
    pass4_redos_and_depth p rule.conditions
    pass5_contradictions rule.conditions
    pass6_action_security p rule.actions opts
