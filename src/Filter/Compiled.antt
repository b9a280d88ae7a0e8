-- ===== src/Filter/Compiled.antt =====
-- `CompiledFilter` of crates/nuncio-filter/src/engine.rs, and `matches_account` of ast.rs: compiled
-- rules and the evaluation of their conditions against a message.
pub mod Cached
use Prim.Native.Char.{code}
use Prim.Native.String
use nuncio.Common.{
  ℕ, suc, ◌+◌, max, String, ◌≡◌, Bool, true, false, not, List, [], ◌∷◌, ◌++◌, map, Option, none,
  some, ◌&&◌, ◌||◌, str_eq, if◌then◌else◌, Result, ok, err, ◌>>=◌, ◌>>◌, map_err, any, find,
  is_empty, ◌==◌,
}
use nuncio.Common.Int.{ℤ, pos, ltb_ℤ, leb_ℤ, eq_ℤ}
use nuncio.Common.Sort.{sort_by_key}
use nuncio.Common.Text.{◌⧺◌, eq_ignore_ascii_case, contains_char, decimal_ℤ}
use nuncio.Common.Text
use nuncio.Core.Model.{Email}
use nuncio.Filter.Ast.{
  FilterField, FilterOperator, FilterValue, ConditionLeaf, ConditionNode, Conditions, RuleAction,
  FilterRule, leaf, and, or, nil, cons, string, number, boolean, list,
}
use nuncio.Filter.Platform.{Platform}

-- `target_account.replace(['*', '%'], ".*")`
wildcards : String → String
wildcards String.[] = ""
wildcards (String.◌∷◌ c s) =
    (if code c == b'*' || code c == b'%' then ".*" else String.◌∷◌ c "") ⧺ wildcards s

-- `a.or(b).unwrap_or("")`
or_empty : Option String → Option String → String
or_empty (some b) h = b
or_empty none (some h) = h
or_empty none none = ""

eval_in_set : String → FilterValue → Bool
eval_in_set haystack (list l) = any (λ s. eq_ignore_ascii_case haystack s) l
eval_in_set haystack _ = false

-- The comparisons of the fields `size` and `date`.
unfoldable pub eval_number_op : ℤ → FilterOperator → FilterValue → Bool
eval_number_op n FilterOperator.equals (number target) = eq_ℤ n target
eval_number_op n FilterOperator.not_equals (number target) = not (eq_ℤ n target)
eval_number_op n FilterOperator.greater_than (number target) = ltb_ℤ target n
eval_number_op n FilterOperator.less_than (number target) = ltb_ℤ n target
eval_number_op n FilterOperator.greater_than_or_equal (number target) = leb_ℤ target n
eval_number_op n FilterOperator.less_than_or_equal (number target) = leb_ℤ n target
eval_number_op n _ _ = false

-- `body_plain.as_ref().map(|b| b.len() as i64).unwrap_or(0)`; a text is shorter than 2^63 bytes.
unfoldable pub size_of : Option String → ℤ
size_of (some b) = pos (String.len b)
size_of none = pos 0

bool_eq : Bool → Bool → Bool
bool_eq true b = b
bool_eq false b = not b

eval_attachment : Bool → FilterOperator → FilterValue → Bool
unfolding bool_eq
eval_attachment has FilterOperator.equals (boolean b) = bool_eq has b
eval_attachment has _ (boolean b) = not (bool_eq has b)
eval_attachment has _ _ = false

pub record CompiledFilter (p : Platform) : Type 0 where
  pub rule : FilterRule
  pub compiled_regexes : List (String × p.Regex)

module _ (p : Platform) where
  open p use {Regex, regex_new, is_match, to_lowercase}

  unfoldable pub matches_account : FilterRule → String → Bool
  unfolding wildcards
  matches_account rule account_id =
      let t = rule.target_account in
      if str_eq t "*" || str_eq t "%" || str_eq t ""
      then true
      else if eq_ignore_ascii_case t account_id
      then true
      else if contains_char t b'*' || contains_char t b'%'
      then elim (regex_new ("(?i)^" ⧺ wildcards t ⧺ "$")) [
        | ok re ↦ is_match re account_id
        | err e ↦ false
      ]
      else false

  -- The leaf of `collect_regexes`.
  collect_leaf :
      FilterOperator → FilterValue → List (String × Regex) → Result String (List (String × Regex))
  collect_leaf FilterOperator.matches (string pat) acc = do
    re ← map_err (λ e. "regex compile error: " ⧺ e) (regex_new pat)
    ok (acc ++ (pat, re) ∷ [])
  collect_leaf _ _ acc = ok acc

  unfoldable mutual
    unfolding collect_leaf

    pub collect_regexes :
        ConditionNode → List (String × Regex) → Result String (List (String × Regex))
    collect_regexes (leaf l) acc = collect_leaf l.operator l.value acc
    collect_regexes (and children) acc = collect_children children acc
    collect_regexes (or children) acc = collect_children children acc
    collect_regexes (ConditionNode.not inner) acc = collect_regexes inner acc

    pub collect_children :
        Conditions → List (String × Regex) → Result String (List (String × Regex))
    collect_children nil acc = ok acc
    collect_children (cons c cs) acc = collect_regexes c acc >>= collect_children cs

  unfoldable pub compile : FilterRule → Result String (CompiledFilter p)
  unfolding collect_regexes
  compile rule = do
    regexes ← collect_regexes rule.conditions []
    ok (record { rule = rule; compiled_regexes = regexes })

  -- A pattern that was compiled with the rule, or else is compiled now.
  eval_matches : String → String → List (String × Regex) → Bool
  eval_matches haystack pat regexes = elim (find (λ r. str_eq r.0 pat) regexes) [
    | some (q, re) ↦ is_match re haystack
    | none ↦ elim (regex_new pat) [ ok re ↦ is_match re haystack | err e ↦ false ]
  ]

  eval_string_op : String → FilterOperator → FilterValue → List (String × Regex) → Bool
  unfolding eval_in_set eval_matches
  eval_string_op h FilterOperator.equals (string s) regexes = eq_ignore_ascii_case h s
  eval_string_op h FilterOperator.not_equals (string s) regexes = not (eq_ignore_ascii_case h s)
  eval_string_op h FilterOperator.contains (string s) regexes =
      Text.contains (to_lowercase h) (to_lowercase s)
  eval_string_op h FilterOperator.not_contains (string s) regexes =
      not (Text.contains (to_lowercase h) (to_lowercase s))
  eval_string_op h FilterOperator.matches (string pat) regexes = eval_matches h pat regexes
  eval_string_op h FilterOperator.in_set v regexes = eval_in_set h v
  eval_string_op h FilterOperator.not_in v regexes = not (eval_in_set h v)
  eval_string_op h _ _ regexes = false

  eval_field : FilterField → ConditionLeaf → Email → List (String × Regex) → Bool
  unfolding eval_string_op eval_number_op eval_attachment or_empty size_of
  eval_field FilterField.subject l e regexes = eval_string_op e.subject l.operator l.value regexes
  eval_field FilterField.from l e regexes = eval_string_op e.sender l.operator l.value regexes
  eval_field FilterField.to l e regexes = eval_string_op e.recipient l.operator l.value regexes
  eval_field FilterField.body l e regexes =
      eval_string_op (or_empty e.body_plain e.body_html) l.operator l.value regexes
  eval_field FilterField.folder l e regexes = eval_string_op e.folder_id l.operator l.value regexes
  eval_field FilterField.account l e regexes =
      eval_string_op e.account_id l.operator l.value regexes
  eval_field FilterField.has_attachment l e regexes =
      eval_attachment (not (is_empty e.attachments)) l.operator l.value
  eval_field FilterField.size l e regexes = eval_number_op (size_of e.body_plain) l.operator l.value
  eval_field FilterField.date l e regexes = eval_number_op e.received_at l.operator l.value
  eval_field (FilterField.header name) l e regexes = false

  unfoldable pub eval_leaf : ConditionLeaf → Email → List (String × Regex) → Bool
  unfolding eval_field
  eval_leaf l e regexes = eval_field l.field l e regexes

  -- `children.iter().all(..)` and `.any(..)` are `eval_all` and `eval_any`.
  unfoldable mutual
    pub eval_node : ConditionNode → Email → List (String × Regex) → Bool
    eval_node (leaf l) e regexes = eval_leaf l e regexes
    eval_node (and children) e regexes = eval_all children e regexes
    eval_node (or children) e regexes = eval_any children e regexes
    eval_node (ConditionNode.not inner) e regexes = not (eval_node inner e regexes)

    pub eval_all : Conditions → Email → List (String × Regex) → Bool
    eval_all nil e regexes = true
    eval_all (cons c cs) e regexes = eval_node c e regexes && eval_all cs e regexes

    pub eval_any : Conditions → Email → List (String × Regex) → Bool
    eval_any nil e regexes = false
    eval_any (cons c cs) e regexes = eval_node c e regexes || eval_any cs e regexes

  unfoldable pub evaluate_condition : CompiledFilter p → Email → Bool
  unfolding eval_node
  evaluate_condition f e = eval_node f.rule.conditions e f.compiled_regexes
