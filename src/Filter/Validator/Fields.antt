-- ===== src/Filter/Validator/Fields.antt =====
-- Passes 1 to 3 of crates/nuncio-filter/src/validator.rs: field types, folders and addresses.
use nuncio.Common.{
  String, Bool, false, not, List, [], ◌∷◌, Option, none, some, ◌&&◌, ◌||◌, if◌then◌else◌, ok, err,
  ◌>>◌, any, str_eq,
}
use nuncio.Common.Text.{
  ◌⧺◌, eq_ignore_ascii_case, contains_char, starts_with, ends_with, trim, split,
}
use nuncio.Filter.Ast.{
  FilterField, FilterOperator, FilterValue, ConditionNode, RuleAction, string, number, boolean,
  list, move_to, forward_to,
}
use nuncio.Filter.Validator.Checks.{
  field_type_mismatch, invalid_folder, invalid_email_format, Check, reject, each_leaf, each_action,
}

-- `{:?}` of the fields that the messages name; it is not called on `header`.
debug_name : FilterField → String
debug_name FilterField.subject = "Subject"
debug_name FilterField.from = "From"
debug_name FilterField.to = "To"
debug_name FilterField.body = "Body"
debug_name FilterField.size = "Size"
debug_name FilterField.folder = "Folder"
debug_name FilterField.date = "Date"
debug_name FilterField.account = "Account"
debug_name FilterField.has_attachment = "HasAttachment"
debug_name (FilterField.header name) = "Header"

needs_number : FilterField → FilterValue → Check
unfolding debug_name
needs_number field (number n) = ok tt
needs_number field _ =
    err (field_type_mismatch ("field " ⧺ debug_name field ⧺ " requires a numeric integer value"))

needs_boolean : FilterValue → Check
needs_boolean (boolean b) = ok tt
needs_boolean _ = err (field_type_mismatch "field 'has_attachment' requires a boolean value")

needs_text : FilterField → FilterValue → Check
unfolding debug_name
needs_text field (string s) = ok tt
needs_text field (list l) = ok tt
needs_text field _ =
    err (
      field_type_mismatch ("field " ⧺ debug_name field ⧺ " requires a string or string list value"))

unfoldable pub check_field_type : FilterField → FilterValue → Check
unfolding needs_number needs_boolean needs_text
check_field_type FilterField.size v = needs_number FilterField.size v
check_field_type FilterField.date v = needs_number FilterField.date v
check_field_type FilterField.has_attachment v = needs_boolean v
check_field_type (FilterField.header name) v = err (
    field_type_mismatch
      "header field conditions are not yet supported: message headers are not indexed")
check_field_type field v = needs_text field v

unfoldable pub pass1_field_types : ConditionNode → Check
unfolding check_field_type
pass1_field_types node = each_leaf (λ l. check_field_type l.field l.value) node

-- The body of the loop of `pass2_folder_references`.
unfoldable pub check_folder : Option (List String) → RuleAction → Check
check_folder available (move_to target) =
    reject (str_eq (trim target) "") (invalid_folder "target folder name cannot be empty")
    >> elim available [
      | none ↦ ok tt
      | some folders ↦
          reject (not (any (λ f. eq_ignore_ascii_case f target) folders))
            (invalid_folder ("target folder '" ⧺ target ⧺ "' does not exist in available folders"))
    ]
check_folder available _ = ok tt

unfoldable pub pass2_folder_references :
    ConditionNode → List RuleAction → Option (List String) → Check
unfolding check_folder
pass2_folder_references node actions available = each_action (check_folder available) actions

unfoldable pub is_valid_email_format : String → Bool
is_valid_email_format email =
    if str_eq email "" || not (contains_char email b'@') then false else elim (split b'@' email) [
      | user ∷ domain ∷ [] ↦
          not (str_eq user "")
          && contains_char domain b'.'
          && not (starts_with domain ".")
          && not (ends_with domain ".")
      | _ ↦ false
    ]

unfoldable pub check_forward_email : RuleAction → Check
check_forward_email (forward_to email) =
    reject (not (is_valid_email_format email))
      (invalid_email_format ("FORWARD TO email '" ⧺ email ⧺ "' violates RFC 5322 format"))
check_forward_email _ = ok tt

check_address : FilterOperator → FilterValue → Check
check_address FilterOperator.equals (string s) =
    reject (not (is_valid_email_format s))
      (invalid_email_format ("email equality value '" ⧺ s ⧺ "' violates RFC 5322 format"))
check_address _ _ = ok tt

unfoldable pub check_email_field : FilterField → FilterOperator → FilterValue → Check
unfolding check_address
check_email_field FilterField.from op v = check_address op v
check_email_field FilterField.to op v = check_address op v
check_email_field _ op v = ok tt

unfoldable pub check_condition_emails : ConditionNode → Check
unfolding check_email_field
check_condition_emails node = each_leaf (λ l. check_email_field l.field l.operator l.value) node

unfoldable pub pass3_rfc5322 : ConditionNode → List RuleAction → Check
unfolding check_condition_emails check_forward_email
pass3_rfc5322 node actions = each_action check_forward_email actions >> check_condition_emails node
