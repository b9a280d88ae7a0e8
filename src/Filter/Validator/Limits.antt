-- ===== src/Filter/Validator/Limits.antt =====
-- Passes 4 to 6 of crates/nuncio-filter/src/validator.rs: patterns and depth, contradictions, and the
-- safety of the actions.
pub mod Contradictions
pub mod Sizes
use nuncio.Common.{
  ℕ, suc, String, Bool, true, false, not, List, [], ◌∷◌, Option, none, some, ◌&&◌, ◌||◌,
  if◌then◌else◌, Result, ok, err, ◌>>=◌, ◌>>◌, any, str_eq, ltb, ◌==◌,
}
use nuncio.Common.Int.{ℤ, leb_ℤ}
use nuncio.Common.Text.{
  ◌⧺◌, eq_ignore_ascii_case, contains_char, starts_with, ends_with, trim, split, decimal_ℤ,
}
use nuncio.Common.Text
use nuncio.Filter.Ast.{
  FilterField, FilterOperator, FilterValue, ConditionLeaf, ConditionNode, Conditions, RuleAction,
  FilterRule, leaf, and, or, nil, cons, string, number, boolean, list, depth, move_to, forward_to,
  call_webhook,
}
use nuncio.Filter.Platform.{Platform}
use nuncio.Filter.Validator.Checks.{
  ValidationError, field_type_mismatch, invalid_folder, invalid_email_format, redos_or_depth,
  contradiction_detected, action_security_violation, ValidationOptions, Check, reject, each_leaf,
  each_action,
}

-- The state of the loop of `pass5_contradictions`: `size_gt` and `size_lt`.
abbrev pub SizeBounds : Type 0
SizeBounds = Option ℤ × Option ℤ

size_bound : FilterOperator → ℤ → SizeBounds → SizeBounds
size_bound FilterOperator.greater_than n (gt, lt) = (some n, lt)
size_bound FilterOperator.greater_than_or_equal n (gt, lt) = (some n, lt)
size_bound FilterOperator.less_than n (gt, lt) = (gt, some n)
size_bound FilterOperator.less_than_or_equal n (gt, lt) = (gt, some n)
size_bound _ n b = b

leaf_bound : FilterField → FilterOperator → FilterValue → SizeBounds → SizeBounds
unfolding size_bound
leaf_bound FilterField.size op (number n) b = size_bound op n b
leaf_bound _ op _ b = b

child_bound : ConditionNode → SizeBounds → SizeBounds
unfolding leaf_bound
child_bound (leaf l) b = leaf_bound l.field l.operator l.value b
child_bound _ b = b

unfoldable pub size_bounds : Conditions → SizeBounds → SizeBounds
unfolding child_bound
size_bounds nil b = b
size_bounds (cons c cs) b = size_bounds cs (child_bound c b)

unfoldable pub bounds_clash : SizeBounds → Check
bounds_clash (some gt, some lt) = reject (leb_ℤ lt gt) (
    contradiction_detected
      ("size condition contradiction: size > " ⧺ decimal_ℤ gt ⧺ " AND size < " ⧺ decimal_ℤ lt))
bounds_clash (gt, lt) = ok tt

unfoldable pub pass5_contradictions : ConditionNode → Check
unfolding size_bounds bounds_clash
pass5_contradictions (and children) = bounds_clash (size_bounds children (none, none))
pass5_contradictions _ = ok tt

-- `split('@').nth(1).unwrap_or("")`
unfoldable pub domain_of : String → String
domain_of email = elim (split b'@' email) [ user ∷ domain ∷ rest ↦ domain | _ ↦ "" ]

module _ (p : Platform) where
  open p use {regex_new, to_lowercase}

  unfoldable pub check_pattern : FilterOperator → FilterValue → Check
  check_pattern FilterOperator.matches (string pattern) =
      reject
        (Text.contains pattern "+)+"
          || Text.contains pattern "*)*"
          || Text.contains pattern "+)*"
          || Text.contains pattern "*)+")
        (redos_or_depth
          ("regex pattern '" ⧺ pattern ⧺ "' contains dangerous nested quantifier (ReDoS risk)"))
      >> elim (regex_new pattern) [
        | ok re ↦ ok tt
        | err e ↦ err (redos_or_depth ("invalid regex pattern '" ⧺ pattern ⧺ "'"))
      ]
  check_pattern _ _ = ok tt

  unfoldable pub check_regex_patterns : ConditionNode → Check
  unfolding check_pattern
  check_regex_patterns node = each_leaf (λ l. check_pattern l.operator l.value) node

  unfoldable pub pass4_redos_and_depth : ConditionNode → Check
  unfolding check_regex_patterns
  pass4_redos_and_depth node =
      reject (ltb 10 (depth node))
        (redos_or_depth "AST depth exceeds maximum allowed threshold of 10")
      >> check_regex_patterns node

  -- The body of the loop of `pass6_action_security`.
  unfoldable pub check_action : ValidationOptions → RuleAction → Check
  unfolding domain_of
  check_action opts (forward_to email) = elim opts.allowed_forward_domains [
    | none ↦ ok tt
    | some allowed ↦ reject (not (any (λ d. eq_ignore_ascii_case d (domain_of email)) allowed)) (
        action_security_violation
          ("FORWARD TO domain '" ⧺ domain_of email ⧺ "' is not in allowed whitelist"))
  ]
  check_action opts (call_webhook url) =
      reject (not (starts_with url "http://") && not (starts_with url "https://")) (
        action_security_violation
          ("CALL WEBHOOK URL '" ⧺ url ⧺ "' must start with http:// or https://"))
      >> (if opts.block_private_webhooks
          then (let lower = to_lowercase url in
              reject
                (Text.contains lower "127.0.0.1"
                  || Text.contains lower "localhost"
                  || Text.contains lower "169.254.169.254"
                  || Text.contains lower "0.0.0.0")
                (action_security_violation (
                  "CALL WEBHOOK URL '" ⧺ url
                  ⧺ "' points to blocked private / metadata IP address")))
          else ok tt)
  check_action opts _ = ok tt

  unfoldable pub pass6_action_security : List RuleAction → ValidationOptions → Check
  unfolding check_action
  pass6_action_security actions opts = each_action (check_action opts) actions
