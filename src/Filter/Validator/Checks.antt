-- ===== src/Filter/Validator/Checks.antt =====
-- crates/nuncio-filter/src/validator.rs: the errors and options of the validator, and the walks over
-- condition trees and actions that its passes make.
pub mod Walks
use nuncio.Common.{
  ℕ, suc, String, Bool, true, false, not, List, [], ◌∷◌, Option, none, some, ◌&&◌, ◌||◌,
  if◌then◌else◌, Result, ok, err, ◌>>=◌, ◌>>◌, any, str_eq, ltb, ◌==◌,
}
use nuncio.Common.Int.{ℤ, leb_ℤ}
use nuncio.Common.Text.{
  ◌⧺◌, eq_ignore_ascii_case, contains_char, starts_with, ends_with, trim, split, decimal_ℤ,
}
use nuncio.Common.Text
use nuncio.Filter.Ast.{
  FilterField, FilterOperator, FilterValue, ConditionLeaf, ConditionNode, Conditions, RuleAction,
  FilterRule, leaf, and, or, nil, cons, string, number, boolean, list, depth, move_to, forward_to,
  call_webhook,
}

pub data ValidationError : Type 0 where
  field_type_mismatch invalid_folder invalid_email_format : String → ValidationError
  redos_or_depth contradiction_detected action_security_violation : String → ValidationError

unfoldable pub show_validation_error : ValidationError → String
show_validation_error (field_type_mismatch e) = "Pass 1 (Field Types Error): " ⧺ e
show_validation_error (invalid_folder e) = "Pass 2 (Folder Reference Error): " ⧺ e
show_validation_error (invalid_email_format e) = "Pass 3 (RFC 5322 Format Error): " ⧺ e
show_validation_error (redos_or_depth e) = "Pass 4 (ReDoS & AST Depth Error): " ⧺ e
show_validation_error (contradiction_detected e) = "Pass 5 (Contradiction Error): " ⧺ e
show_validation_error (action_security_violation e) = "Pass 6 (Action Security Error): " ⧺ e

pub record ValidationOptions : Type 0 where
  pub available_folders : Option (List String)
  pub allowed_forward_domains : Option (List String)
  pub block_private_webhooks : Bool

abbrev pub default_options : ValidationOptions
default_options = record {
  available_folders = none;
  allowed_forward_domains = none;
  block_private_webhooks = true;
}

abbrev pub Check : Type 0
Check = Result ValidationError (Unit {0})

-- `if test { return Err(..) }`
abbrev pub reject : Bool → ValidationError → Check
reject true e = err e
reject false e = ok tt

-- The walk of the passes over a condition tree: `check` at every leaf, up to the first error.
unfoldable mutual
  pub each_leaf : (ConditionLeaf → Check) → ConditionNode → Check
  each_leaf check (leaf l) = check l
  each_leaf check (and children) = each_child check children
  each_leaf check (or children) = each_child check children
  each_leaf check (ConditionNode.not inner) = each_leaf check inner

  pub each_child : (ConditionLeaf → Check) → Conditions → Check
  each_child check nil = ok tt
  each_child check (cons c cs) = each_leaf check c >> each_child check cs

-- The loops of the passes over the actions.
unfoldable pub each_action : (RuleAction → Check) → List RuleAction → Check
each_action check [] = ok tt
each_action check (a ∷ as') = check a >> each_action check as'
