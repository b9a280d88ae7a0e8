-- ===== src/Filter/Validator/Admission.antt =====
-- What a rule satisfies exactly when crates/nuncio-filter/src/validator.rs accepts it, stated without
-- the order of the passes and without their messages.
use nuncio.Common.{
  ◌≡◌, refl, ◌↔◌, ◌⊎◌, ◌≤◌, true, false, List, Option, none, some, Result, ok, err, All, any,
  str_eq, arith, String, >>_iff,
}
use nuncio.Common.Text.{eq_ignore_ascii_case, starts_with, trim}
use nuncio.Common.Text
use nuncio.Filter.Ast.{
  FilterField, FilterOperator, FilterValue, ConditionNode, FilterRule, RuleAction, string, number,
  boolean, list, depth, move_to, forward_to, call_webhook,
}
use nuncio.Filter.Platform.{Platform}
use nuncio.Filter.Validator.{validate}
use nuncio.Filter.Validator.Checks.{ValidationOptions, each_action}
use nuncio.Filter.Validator.Checks.Walks.{AllLeaves, each_leaf_iff, each_action_iff}
use nuncio.Filter.Validator.Fields.{
  check_field_type, pass1_field_types, check_folder, pass2_folder_references, is_valid_email_format,
  check_forward_email, check_email_field, check_condition_emails, pass3_rfc5322,
}
use nuncio.Filter.Validator.Limits.Sizes.{IsConsistent, pass5_contradictions_iff}
use nuncio.Filter.Validator.Limits.{
  check_pattern, check_regex_patterns, pass4_redos_and_depth, pass5_contradictions, domain_of,
  check_action, pass6_action_security,
}

-- The value of a leaf has the type of its field; conditions on headers are not supported.
abbrev pub IsTyped : FilterField → FilterValue → Type 0
IsTyped FilterField.size (number n) = Unit
IsTyped FilterField.size _ = ⊥
IsTyped FilterField.date (number n) = Unit
IsTyped FilterField.date _ = ⊥
IsTyped FilterField.has_attachment (boolean b) = Unit
IsTyped FilterField.has_attachment _ = ⊥
IsTyped (FilterField.header name) _ = ⊥
IsTyped _ (number n) = ⊥
IsTyped _ (boolean b) = ⊥
IsTyped _ _ = Unit

-- An address that is compared for equality is well formed.
abbrev pub IsAddressed : FilterField → FilterOperator → FilterValue → Type 0
IsAddressed FilterField.from FilterOperator.equals (string s) = is_valid_email_format s ≡ true
IsAddressed FilterField.to FilterOperator.equals (string s) = is_valid_email_format s ≡ true
IsAddressed _ _ _ = Unit

-- The folder that a message is moved to is named, and known where the known folders are given.
abbrev pub IsFiled : Option (List String) → RuleAction → Type 0
IsFiled none (move_to target) = str_eq (trim target) "" ≡ false
IsFiled (some folders) (move_to target) =
    (str_eq (trim target) "" ≡ false) × (any (λ f. eq_ignore_ascii_case f target) folders ≡ true)
IsFiled _ _ = Unit

abbrev pub IsForwardable : RuleAction → Type 0
IsForwardable (forward_to email) = is_valid_email_format email ≡ true
IsForwardable _ = Unit

module _ (p : Platform) where
  open p use {regex_new, to_lowercase}

  -- A pattern has no nested quantifier, and compiles.
  abbrev pub IsSafePattern : FilterOperator → FilterValue → Type 0
  IsSafePattern FilterOperator.matches (string s) =
      (Text.contains s "+)+" ≡ false)
      × (Text.contains s "*)*" ≡ false)
      × (Text.contains s "+)*" ≡ false)
      × (Text.contains s "*)+" ≡ false)
      × ((re : p.Regex) × (regex_new s ≡ ok re))
  IsSafePattern _ _ = Unit

  -- A forward goes to an allowed domain; a webhook is an HTTP address, and not a private one where
  -- these are blocked.
  abbrev pub IsSafeAction : ValidationOptions → RuleAction → Type 0
  IsSafeAction opts (forward_to email) = Allowed opts.allowed_forward_domains
    where
      Allowed : Option (List String) → Type 0
      Allowed none = Unit
      Allowed (some ds) = any (λ d. eq_ignore_ascii_case d (domain_of email)) ds ≡ true
  IsSafeAction opts (call_webhook url) =
      ((starts_with url "http://" ≡ true) ⊎ (starts_with url "https://" ≡ true))
      × (opts.block_private_webhooks ≡ true
          → (Text.contains (to_lowercase url) "127.0.0.1" ≡ false)
            × (Text.contains (to_lowercase url) "localhost" ≡ false)
            × (Text.contains (to_lowercase url) "169.254.169.254" ≡ false)
            × (Text.contains (to_lowercase url) "0.0.0.0" ≡ false))
  IsSafeAction opts _ = Unit

  pub record IsAdmissible (rule : FilterRule) (opts : ValidationOptions) : Type 0 where
    pub typed : AllLeaves (λ l. IsTyped l.field l.value) rule.conditions
    pub filed : All (IsFiled opts.available_folders) rule.actions
    pub forwardable : All IsForwardable rule.actions
    pub addressed : AllLeaves (λ l. IsAddressed l.field l.operator l.value) rule.conditions
    pub shallow : depth rule.conditions ≤ 10
    pub safe_patterns : AllLeaves (λ l. IsSafePattern l.operator l.value) rule.conditions
    pub consistent : IsConsistent rule.conditions
    pub safe_actions : All (IsSafeAction opts) rule.actions

check_field_type_iff :
    (field : FilterField) (v : FilterValue) → (check_field_type field v ≡ ok tt) ↔ IsTyped field v
unfolding check_field_type
check_field_type_iff FilterField.size (string s) = ground arith
check_field_type_iff _ (string s) = ground arith
check_field_type_iff FilterField.size (number n) = ground arith
check_field_type_iff _ (number n) = ground arith
check_field_type_iff FilterField.size (boolean b) = ground arith
check_field_type_iff _ (boolean b) = ground arith
check_field_type_iff FilterField.size (list l) = ground arith
check_field_type_iff _ (list l) = ground arith

check_email_field_iff :
    (field : FilterField) (op : FilterOperator) (v : FilterValue)
    → (check_email_field field op v ≡ ok tt) ↔ IsAddressed field op v
unfolding check_email_field
check_email_field_iff FilterField.from FilterOperator.equals (string s) = ground arith
check_email_field_iff FilterField.from _ (string s) = ground arith
check_email_field_iff FilterField.to FilterOperator.equals (string s) = ground arith
check_email_field_iff FilterField.to _ (string s) = ground arith
check_email_field_iff _ _ (string s) = ground arith
check_email_field_iff FilterField.from FilterOperator.equals (number n) = ground arith
check_email_field_iff FilterField.from _ (number n) = ground arith
check_email_field_iff FilterField.to FilterOperator.equals (number n) = ground arith
check_email_field_iff FilterField.to _ (number n) = ground arith
check_email_field_iff _ _ (number n) = ground arith
check_email_field_iff FilterField.from FilterOperator.equals (boolean b) = ground arith
check_email_field_iff FilterField.from _ (boolean b) = ground arith
check_email_field_iff FilterField.to FilterOperator.equals (boolean b) = ground arith
check_email_field_iff FilterField.to _ (boolean b) = ground arith
check_email_field_iff _ _ (boolean b) = ground arith
check_email_field_iff FilterField.from FilterOperator.equals (list l) = ground arith
check_email_field_iff FilterField.from _ (list l) = ground arith
check_email_field_iff FilterField.to FilterOperator.equals (list l) = ground arith
check_email_field_iff FilterField.to _ (list l) = ground arith
check_email_field_iff _ _ (list l) = ground arith

check_folder_iff :
    (available : Option (List String)) (a : RuleAction)
    → (check_folder available a ≡ ok tt) ↔ IsFiled available a
unfolding check_folder
check_folder_iff none (move_to target) = ground arith
check_folder_iff (some folders) (move_to target) = ground arith
check_folder_iff none _ = ground arith
check_folder_iff (some folders) _ = ground arith

check_forward_email_iff : (a : RuleAction) → (check_forward_email a ≡ ok tt) ↔ IsForwardable a
unfolding check_forward_email
check_forward_email_iff (forward_to email) = ground arith
check_forward_email_iff _ = ground arith

module _ (p : Platform) where
  open p use {regex_new}

  check_pattern_iff :
      (op : FilterOperator) (v : FilterValue)
      → (check_pattern p op v ≡ ok tt) ↔ IsSafePattern p op v
  unfolding check_pattern
  check_pattern_iff FilterOperator.matches (string s) = compiled (regex_new s) refl
    where
      compiled :
          (r : Result String p.Regex)
          → regex_new s ≡ r
          → (check_pattern p FilterOperator.matches (string s) ≡ ok tt)
            ↔ IsSafePattern p FilterOperator.matches (string s)
      compiled (ok re) e = (
        λ h. (ground arith, ground arith, ground arith, ground arith, (re, e)),
        λ h. ground arith,
      )
      compiled (err x) e = (λ h. absurd (ground arith), λ (a, b, c, d, (re, g)). absurd (cc (e, g)))
  check_pattern_iff FilterOperator.matches _ = ground arith
  check_pattern_iff _ (string s) = ground arith
  check_pattern_iff _ (number n) = ground arith
  check_pattern_iff _ (boolean b) = ground arith
  check_pattern_iff _ (list l) = ground arith

  check_action_iff :
      (opts : ValidationOptions) (a : RuleAction)
      → (check_action p opts a ≡ ok tt) ↔ IsSafeAction p opts a
  unfolding check_action
  check_action_iff opts (forward_to email) = ground arith
  check_action_iff opts (call_webhook url) = ground arith
  check_action_iff opts _ = ground arith

  pass1_iff :
      (node : ConditionNode)
      → (pass1_field_types node ≡ ok tt) ↔ AllLeaves (λ l. IsTyped l.field l.value) node
  unfolding pass1_field_types
  pass1_iff = each_leaf_iff _ _ (λ l. check_field_type_iff l.field l.value)

  pass2_iff :
      (node : ConditionNode) (actions : List RuleAction) (available : Option (List String))
      → (pass2_folder_references node actions available ≡ ok tt) ↔ All (IsFiled available) actions
  unfolding pass2_folder_references
  pass2_iff node actions available = each_action_iff _ _ (check_folder_iff available) actions

  pass3_iff :
      (node : ConditionNode) (actions : List RuleAction)
      → (pass3_rfc5322 node actions ≡ ok tt)
        ↔ (All IsForwardable actions × AllLeaves (λ l. IsAddressed l.field l.operator l.value) node)
  unfolding pass3_rfc5322 check_condition_emails
  pass3_iff node actions =
      let forwards = each_action_iff _ _ check_forward_email_iff actions in
      let addresses =
        each_leaf_iff _ (λ l. IsAddressed l.field l.operator l.value)
          (λ l. check_email_field_iff l.field l.operator l.value) node in
      let both =
        >>_iff (each_action check_forward_email actions) (check_condition_emails node) tt in
      (
        λ h. let (a, b) = both.0 h in (forwards.0 a, addresses.0 b),
        λ (a, b). both.1 (forwards.1 a, addresses.1 b),
      )

  pass4_iff :
      (node : ConditionNode)
      → (pass4_redos_and_depth p node ≡ ok tt)
        ↔ ((depth node ≤ 10) × AllLeaves (λ l. IsSafePattern p l.operator l.value) node)
  unfolding pass4_redos_and_depth check_regex_patterns
  pass4_iff node =
      let patterns =
        each_leaf_iff _ (λ l. IsSafePattern p l.operator l.value)
          (λ l. check_pattern_iff l.operator l.value) node in
      let both = >>_iff _ (check_regex_patterns p node) tt in
      (
        λ h. let (a, b) = both.0 h in (ground arith, patterns.0 b),
        λ (a, b). both.1 (ground arith, patterns.1 b),
      )

  pass6_iff :
      (actions : List RuleAction) (opts : ValidationOptions)
      → (pass6_action_security p actions opts ≡ ok tt) ↔ All (IsSafeAction p opts) actions
  unfolding pass6_action_security
  pass6_iff actions opts = each_action_iff _ _ (check_action_iff opts) actions

  -- A rule is accepted exactly when every leaf's value has the type of its field (and no leaf is on a
  -- header), every folder that is moved to is named and known, every address is well formed, the
  -- tree is at most ten deep, every pattern compiles and has no nested quantifier, every forward and
  -- webhook is allowed, and, where the tree is a conjunction with a lower and an upper bound on the
  -- size among its children, the last lower one is less than the last upper one, strict bounds and
  -- others alike.
  pub validate_iff :
      (rule : FilterRule) (opts : ValidationOptions)
      → (validate p rule opts ≡ ok tt) ↔ IsAdmissible p rule opts
  unfolding validate
  validate_iff rule opts = (sound, complete)
    where
      sound : validate p rule opts ≡ ok tt → IsAdmissible p rule opts
      sound h =
          let (ok1, h1) = (>>_iff (pass1_field_types rule.conditions) _ tt).0 h in
          let (ok2, h2) =
            (>>_iff (pass2_folder_references rule.conditions rule.actions opts.available_folders) _
                tt).0
              h1 in
          let (ok3, h3) = (>>_iff (pass3_rfc5322 rule.conditions rule.actions) _ tt).0 h2 in
          let (ok4, h4) = (>>_iff (pass4_redos_and_depth p rule.conditions) _ tt).0 h3 in
          let (ok5, ok6) = (>>_iff (pass5_contradictions rule.conditions) _ tt).0 h4 in
          let (forwards, addresses) = (pass3_iff rule.conditions rule.actions).0 ok3 in
          let (shallow, patterns) = (pass4_iff rule.conditions).0 ok4 in
          record {
            typed = (pass1_iff rule.conditions).0 ok1;
            filed = (pass2_iff rule.conditions rule.actions opts.available_folders).0 ok2;
            forwardable = forwards;
            addressed = addresses;
            shallow = shallow;
            safe_patterns = patterns;
            consistent = (pass5_contradictions_iff rule.conditions).0 ok5;
            safe_actions = (pass6_iff rule.actions opts).0 ok6;
          }

      complete : IsAdmissible p rule opts → validate p rule opts ≡ ok tt
      complete h =
          rw
            (
              (pass1_iff rule.conditions).1 h.typed,
              (pass2_iff rule.conditions rule.actions opts.available_folders).1 h.filed,
              (pass3_iff rule.conditions rule.actions).1 (h.forwardable, h.addressed),
              (pass4_iff rule.conditions).1 (h.shallow, h.safe_patterns),
              (pass5_contradictions_iff rule.conditions).1 h.consistent,
            )
            ((pass6_iff rule.actions opts).1 h.safe_actions)
