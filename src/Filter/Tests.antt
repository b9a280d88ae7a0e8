-- ===== src/Filter/Tests.antt =====
-- Runs of the filter crate's model on concrete rules and messages.
use nuncio.Common.{
  ◌≡◌, ◌≢◌, refl, ◌↔◌, true, false, not, [], ◌∷◌, map, none, some, ok, err, String, if◌then◌else◌,
  keep, is_empty, head?, length, str_eq, ◌⊎◌,
}
use mathlib.Core.Option
use nuncio.Common.Int.{pos}
use nuncio.Common.Sort.{sort_by_key, IsSorted}
use nuncio.Common.Text
use nuncio.Core.Model.{Email}
use nuncio.Filter.Ast.{
  FilterField, FilterOperator, FilterRule, ConditionNode, leaf, and, string, mark_read, flag,
}
use nuncio.Filter.Platform.{Platform}
use nuncio.Filter.Compiled.{
  compile, matches_account, eval_leaf, evaluate_condition, eval_node, size_of,
}
use nuncio.Filter.Compiled.Cached.{compile_correct}
use nuncio.Filter.Engine.{FilterEngine, new, evaluate, preview, reload_rules}
use nuncio.Filter.Engine.Evaluation.{applies, with_actions, new-evaluate}
use nuncio.Filter.Engine.Preview.{actions_of, preview_agrees, reload_atomic}
use nuncio.Filter.Validator.{validate}
use nuncio.Filter.Validator.Checks.{default_options, contradiction_detected}
use nuncio.Filter.Validator.Limits.{pass5_contradictions, size_bounds}
use nuncio.Filter.Validator.Limits.Contradictions.{pass5_sound, exactly, exactly_rejected}
use nuncio.Filter.Validator.Admission.{IsAdmissible, validate_iff}

-- Expressions without operators: a match is an occurrence, and "(" does not compile.
abbrev pub literal : Platform
literal = record {
  Regex = String;
  regex_new = λ s. if str_eq s "(" then err "unclosed group" else ok s;
  is_match = λ re s. Text.contains s re;
  to_lowercase = λ s. s;
}

abbrev pub message : Email
message = record {
  id = "msg-1";
  account_id = "work";
  folder_id = "inbox";
  subject = "weekly report";
  sender = "alice@nuncio.mx";
  recipient = "bob@nuncio.mx";
  received_at = pos 1700000000;
  read = false;
  body_plain = some "Hello";
  body_html = none;
  attachments = [];
}

abbrev subject_matches : String → ConditionNode
subject_matches pattern = leaf (record {
  field = FilterField.subject;
  operator = FilterOperator.matches;
  value = string pattern;
})

abbrev pub reports : FilterRule
reports = record {
  id = "rule-1";
  name = "Reports";
  target_account = "work";
  priority = pos 2;
  enabled = true;
  nsql_text = "";
  conditions = subject_matches "report";
  actions = mark_read ∷ flag ∷ [];
  created_at = pos 0;
  updated_at = pos 0;
}

abbrev urgent : FilterRule
urgent = record reports {
  id = "rule-0";
  name = "Weekly";
  priority = pos 1;
  target_account = "*";
  conditions = subject_matches "weekly";
}

abbrev pub engine : FilterEngine literal
engine = record {
  cache = record {
    filters =
        record { rule = urgent; compiled_regexes = ("weekly", "weekly") ∷ [] }
        ∷ record { rule = reports; compiled_regexes = ("report", "report") ∷ [] }
        ∷ [];
  };
}

compile_runs :
    compile literal reports
    ≡ ok (record { rule = reports; compiled_regexes = ("report", "report") ∷ [] })
unfolding compile
compile_runs = refl

compile_correct_example :
    (reports ≡ reports)
    × (evaluate_condition literal
          (record { rule = reports; compiled_regexes = ("report", "report") ∷ [] })
          message
        ≡ eval_node literal reports.conditions message [])
compile_correct_example = compile_correct literal reports _ message compile_runs

new_runs : new literal (reports ∷ urgent ∷ []) ≡ ok engine
unfolding new sort_by_key compile
new_runs = refl

evaluate_runs :
    evaluate literal engine message
    ≡ (urgent, mark_read ∷ flag ∷ []) ∷ (reports, mark_read ∷ flag ∷ []) ∷ []
unfolding evaluate matches_account evaluate_condition eval_leaf Text.contains
    Text.eq_ignore_ascii_case
evaluate_runs = refl

new-evaluate_example :
    (evaluate literal engine message
      ≡ map
          (with_actions literal)
          (keep (applies literal message) (sort_by_key (λ r. r.priority) (reports ∷ urgent ∷ []))))
    × IsSorted (λ ra. ra.0.priority) (evaluate literal engine message)
new-evaluate_example = new-evaluate literal (reports ∷ urgent ∷ []) engine message new_runs

preview_agrees_example :
    ((preview literal engine message 7).matched ≡ not (is_empty (evaluate literal engine message)))
    × ((preview literal engine message 7).matched_rule_id
        ≡ Option.map (λ ra. ra.0.id) (head? (evaluate literal engine message)))
    × ((preview literal engine message 7).actions_evaluated
        ≡ actions_of literal message (evaluate literal engine message))
    × (length (preview literal engine message 7).condition_traces ≡ length engine.cache.filters)
preview_agrees_example = preview_agrees literal message engine 7

abbrev broken : FilterRule
broken = record reports { conditions = subject_matches "(" }

reload_keeps :
    reload_rules literal engine (broken ∷ []) ≡ (engine, err "regex compile error: unclosed group")
unfolding reload_rules new sort_by_key compile
reload_keeps = refl

reload_atomic_example :
    ((reload_rules literal engine (broken ∷ [])).1 ≡ ok tt)
      × (new literal (broken ∷ []) ≡ ok (reload_rules literal engine (broken ∷ [])).0)
    ⊎ ((m : String) × ((reload_rules literal engine (broken ∷ [])).1 ≡ err m)
        × (new literal (broken ∷ []) ≡ err m)
        × ((reload_rules literal engine (broken ∷ [])).0 ≡ engine))
reload_atomic_example = reload_atomic literal engine (broken ∷ [])

point_rejected :
    pass5_contradictions (and (exactly (pos 5)))
    ≡ err (contradiction_detected "size condition contradiction: size > 5 AND size < 5")
unfolding pass5_contradictions Text.decimal_ℤ
point_rejected = refl

point_holds : eval_node literal (and (exactly (pos 5))) message [] ≡ true
unfolding eval_node eval_leaf
point_holds = refl

pass5_sound_example :
    size_bounds (exactly (pos 5)) (none, none)
    ≡ (some (size_of message.body_plain), some (size_of message.body_plain))
pass5_sound_example = pass5_sound literal message [] (exactly (pos 5)) _ point_rejected point_holds

exactly_rejected_example :
    (pass5_contradictions (and (exactly (pos 5))) ≢ ok tt)
    × (eval_node literal (and (exactly (pos 5))) message [] ≡ true)
unfolding size_of
exactly_rejected_example = exactly_rejected literal message (pos 5) refl

validate_iff_example :
    (validate literal reports default_options ≡ ok tt)
    ↔ IsAdmissible literal reports default_options
validate_iff_example = validate_iff literal reports default_options
