-- ===== src/Rpc/Filters.antt =====
-- The service `Filters` of crates/nunciod/src/grpc.rs: the handlers that change rules, and those that
-- try them out. The parser of rule texts is a parameter.
pub mod Agreement
mod Tests
pub mod Updated
use nuncio.Common.{
  ℕ, ◌+◌, String, Bool, true, false, not, ◌||◌, List, [], ◌∷◌, ◌++◌, map, Option, none, some,
  Result, ok, err, map_err, if◌then◌else◌, str_eq, find,
}
use nuncio.Common.Int.{ℤ, pos}
use nuncio.Common.Text.{◌⧺◌, split, trim, starts_with, decimal}
use nuncio.Common.Action.{Action, ◌>>=◌, ◌>>◌, pure}
use nuncio.Core.Model.{Email}
use nuncio.Filter.Ast.{FilterRule, to_nsql}
use nuncio.Filter.Platform.{Platform}
use nuncio.Filter.Engine.{FilterEngine, FilterPreviewResult, new, reload_rules, preview}
use nuncio.Filter.Validator.{validate}
use nuncio.Filter.Validator.Checks.{ValidationError, default_options, show_validation_error}
use nuncio.Store.Host.{Host}
use nuncio.Store.Database.{Database, Db, DatabaseError, SqlxError, show_database_error}
use nuncio.Store.Messages.{get_message}
use nuncio.Store.Rules.{Parser, save_filter_rule, list_filter_rules, delete_filter_rule}
use nuncio.Rpc.Service.{Status, invalid_argument, not_found, internal, given, ok_or, reject}

-- `FiltersGrpcService`
pub record Rules (p : Platform) : Type 0 where
  pub db : Database
  pub filter_engine : FilterEngine p

pub record FilterRuleProto : Type 0 where
  pub id : String
  pub name : String
  pub target_account : String
  pub priority : ℤ
  pub enabled : Bool
  pub nsql_text : String
  pub actions : List String
  pub created_at : ℤ
  pub updated_at : ℤ

unfoldable pub map_filter_rule_to_proto : FilterRule → FilterRuleProto
map_filter_rule_to_proto rule = record {
  id = rule.id;
  name = rule.name;
  target_account = rule.target_account;
  priority = rule.priority;
  enabled = rule.enabled;
  nsql_text = rule.nsql_text;
  actions = map to_nsql rule.actions;
  created_at = rule.created_at;
  updated_at = rule.updated_at;
}

pub record UpdateRuleRequest : Type 0 where
  pub id : String
  pub name : Option String
  pub nsql : Option String
  pub priority : Option ℤ

pub record ImportRulesResponse : Type 0 where
  pub imported_count : ℕ
  pub errors : List String

pub record ValidateRuleResponse : Type 0 where
  pub valid : Bool
  pub error : String

-- `unwrap_or`
unfoldable pub chosen : {A : Type 0} → Option A → A → A
chosen (some a) b = a
chosen none b = b

-- A line that `import_rules` passes over.
unfoldable pub is_skipped : String → Bool
is_skipped line = str_eq line "" || starts_with line "--"

unfoldable pub syntax_error : String → Status
syntax_error e = invalid_argument ("NSQL syntax error: " ⧺ e)

unfoldable pub validation_error : ValidationError → Status
validation_error e = invalid_argument ("NSQL validation error: " ⧺ show_validation_error e)

module _ (p : Platform) (host : Host) (parse : Parser) (show_sqlx : SqlxError → String) where
  abbrev pub Call : Type 0 → Type 0
  Call A = Action (Rules p) Status A

  -- `map_err(..)?` on a call of the database.
  abbrev pub on_store : {A : Type 0} → String → Db A → Call A
  on_store text m s =
      let (r, db) = m s.db in
      (map_err (λ e. internal (text ⧺ show_database_error show_sqlx e)) r, record s { db = db })

  -- The engine takes the rules that were listed, unless one does not compile.
  unfoldable pub take_rules : Result DatabaseError (List FilterRule) × Rules p → Rules p
  take_rules (ok rules, s) = record s { filter_engine = (reload_rules p s.filter_engine rules).0 }
  take_rules (err e, s) = s

  unfoldable pub reload_engine_from_store : Rules p → Rules p
  reload_engine_from_store s =
      let (rules, db) = list_filter_rules parse (host.now s.db.ticks) s.db in
      take_rules (rules, record s { db = db })

  -- The parser reads the clock.
  unfoldable pub parsed : String → ℤ → String → Call FilterRule
  parsed name priority nsql s = (
    map_err syntax_error (parse (host.now s.db.ticks) name priority nsql),
    record s { db = record s.db { ticks = s.db.ticks + 1 } },
  )

  unfoldable pub admitted : FilterRule → Result Status (Unit {0})
  admitted rule = map_err validation_error (validate p rule default_options)

  -- The rule is saved, and the engine reloaded.
  unfoldable pub persist_rule : FilterRule → Call FilterRuleProto
  persist_rule rule = do
    on_store "failed to persist filter rule: " (save_filter_rule rule)
    λ s. (ok (map_filter_rule_to_proto rule), reload_engine_from_store s)

  unfoldable pub create_rule : (name : String) (nsql : String) (priority : ℤ) → Call FilterRuleProto
  create_rule name nsql priority = do
    rule ← parsed name priority nsql
    given (admitted rule)
    persist_rule rule

  unfoldable pub list_rules : Call (List FilterRuleProto)
  list_rules s =
      (on_store "failed to list filter rules: " (list_filter_rules parse (host.now s.db.ticks))
          >>= λ rules. pure (map map_filter_rule_to_proto rules))
        s

  unfoldable pub delete_rule : String → Call (Unit {0})
  delete_rule id = do
    given (reject (str_eq id "") (invalid_argument "id is required"))
    on_store "failed to delete filter rule: " (delete_filter_rule id)
    λ s. (ok tt, reload_engine_from_store s)

  -- What is said of a rule that was validated, and of a text that was parsed.
  unfoldable pub verdict : Result ValidationError (Unit {0}) → ValidateRuleResponse
  verdict (ok u) = record { valid = true; error = "" }
  verdict (err e) = record {
    valid = false;
    error = "NSQL validation error: " ⧺ show_validation_error e;
  }

  unfoldable pub verdict_on : Result String FilterRule → ValidateRuleResponse
  verdict_on (err e) = record { valid = false; error = "NSQL syntax error: " ⧺ e }
  verdict_on (ok rule) = verdict (validate p rule default_options)

  unfoldable pub validate_rule : String → Rules p → ValidateRuleResponse
  validate_rule nsql s = verdict_on (parse (host.now s.db.ticks) "Validation Preview" (pos 0) nsql)

  -- The rule that an update locates.
  unfoldable pub located : String → List FilterRule → Result Status FilterRule
  located id rules =
      ok_or (not_found ("filter rule '" ⧺ id ⧺ "' not found")) (find (λ r. str_eq r.id id) rules)

  unfoldable pub update_rule : UpdateRuleRequest → Call FilterRuleProto
  update_rule req s =
      (on_store "failed to list filter rules: " (list_filter_rules parse (host.now s.db.ticks))
          >>= λ rules. given (located req.id rules) >>= λ old.
              parsed (chosen req.name old.name) (chosen req.priority old.priority)
                (chosen req.nsql old.nsql_text)
              >>= λ rule. given (admitted rule) >> persist_rule (record rule { id = old.id }))
        s

  -- The `match` on a line of an import: a rule is saved as soon as it parses.
  unfoldable pub saved_line :
      String
      → ImportRulesResponse
      → Result DatabaseError (Unit {0}) × Rules p
      → ImportRulesResponse × Rules p
  saved_line line r (ok u, s) = (record r { imported_count = r.imported_count + 1 }, s)
  saved_line line r (err e, s) = (
    record r {
      errors =
          r.errors ++ ("failed to persist '" ⧺ line ⧺ "': " ⧺ show_database_error show_sqlx e) ∷ [];
    },
    s,
  )

  unfoldable pub parsed_line :
      String
      → ImportRulesResponse
      → Result String FilterRule
      → Rules p
      → ImportRulesResponse × Rules p
  parsed_line line r (err e) s =
      (record r { errors = r.errors ++ ("failed to parse '" ⧺ line ⧺ "': " ⧺ e) ∷ [] }, s)
  parsed_line line r (ok rule) s =
      let (answer, db) = save_filter_rule rule s.db in
      saved_line line r (answer, record s { db = db })

  unfoldable pub import_line :
      String → ImportRulesResponse → Rules p → ImportRulesResponse × Rules p
  import_line line r s =
      if is_skipped line
      then (r, s)
      else parsed_line line r
          (parse (host.now s.db.ticks) ("Imported Rule " ⧺ decimal (r.imported_count + 1)) (pos 0)
            line)
          (record s { db = record s.db { ticks = s.db.ticks + 1 } })

  unfoldable pub import_lines :
      List String → ImportRulesResponse → Rules p → ImportRulesResponse × Rules p
  import_lines [] r s = (r, s)
  import_lines (line ∷ lines) r s =
      let (r, s) = import_line (trim line) r s in import_lines lines r s

  -- Empty lines are skipped, so an empty piece after the last line break does not matter.
  unfoldable pub import_rules : String → Rules p → ImportRulesResponse × Rules p
  import_rules content s =
      let (r, s) =
        import_lines (split b'\n' content) (record { imported_count = 0; errors = [] }) s in
      (r, reload_engine_from_store s)
