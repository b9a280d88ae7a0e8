-- ===== src/Store/Rules.antt =====
-- The rule table of crates/nuncio-store/src/db.rs: `save_filter_rule`, `list_filter_rules` and
-- `delete_filter_rule`. The parser of rule texts is a parameter; priorities are `i32`.
use nuncio.Common.{String, not, List, [], ◌∷◌, ◌++◌, Result, ok, err, if◌then◌else◌, str_eq, keep}
use nuncio.Common.Int.{ℤ, pos, eq_ℤ}
use nuncio.Common.Sort.{sort_by_key}
use nuncio.Common.Action.{◌>>◌}
use nuncio.Filter.Ast.{FilterRule}
use nuncio.Store.Database.{Db, RuleRow, statement, select, modify}

-- `NsqlParser::parse_rule` at a time, with the text of its error.
abbrev pub Parser : Type 0
Parser = (now : ℤ) (name : String) (priority : ℤ) (nsql : String) → Result String FilterRule

unfoldable pub rule_row : FilterRule → RuleRow
rule_row rule = record {
  id = rule.id;
  name = rule.name;
  priority = rule.priority;
  enabled = if rule.enabled then pos 1 else pos 0;
  nsql_text = rule.nsql_text;
  created_at = rule.created_at;
  updated_at = rule.updated_at;
}

-- `INSERT OR REPLACE`
unfoldable pub replace_rule : FilterRule → List RuleRow → List RuleRow
replace_rule rule rows = keep (λ r. not (str_eq r.id rule.id)) rows ++ rule_row rule ∷ []

unfoldable pub save_filter_rule : FilterRule → Db (Unit {0})
save_filter_rule rule = do
  statement
  modify (λ db. record db { filter_rules = replace_rule rule db.filter_rules })

-- What a row adds to the list: a text that does not parse is left out.
unfoldable pub restored : RuleRow → Result String FilterRule → List FilterRule → List FilterRule
restored row (err e) rules = rules
restored row (ok parsed) rules =
    record parsed {
      id = row.id;
      enabled = not (eq_ℤ row.enabled (pos 0));
      created_at = row.created_at;
      updated_at = row.updated_at;
    }
    ∷ rules

-- The parser reads the clock at `now`; what it makes of it is overwritten.
unfoldable pub rules_of : Parser → (now : ℤ) → List RuleRow → List FilterRule
rules_of parse now [] = []
rules_of parse now (row ∷ rows) =
    restored row (parse now row.name row.priority row.nsql_text) (rules_of parse now rows)

unfoldable pub list_filter_rules : Parser → (now : ℤ) → Db (List FilterRule)
list_filter_rules parse now = do
  statement
  select (λ db. rules_of parse now (sort_by_key (λ r. r.priority) db.filter_rules))

unfoldable pub remove_rule : String → List RuleRow → List RuleRow
remove_rule rule_id rows = keep (λ r. not (str_eq r.id rule_id)) rows

unfoldable pub delete_filter_rule : String → Db (Unit {0})
delete_filter_rule rule_id = do
  statement
  modify (λ db. record db { filter_rules = remove_rule rule_id db.filter_rules })
