-- ===== src/Rpc/Filters/Tests.antt =====
-- Runs of the handlers of the service `Filters` over a table of one rule.
use nuncio.Common.{String, [], ◌∷◌, none, some, ok, err, str_eq, if◌then◌else◌}
use nuncio.Filter.Ast.{FilterRule}
use nuncio.Filter.Tests.{literal, engine, reports}
use nuncio.Store.Database.{SqlxError}
use nuncio.Store.Rules.{Parser, rule_row}
use nuncio.Store.Tests.{one_message}
use nuncio.Rpc.Filters.{Rules, UpdateRuleRequest}

abbrev show : SqlxError → String
show e = "failed"

-- Every text but the empty one is a rule on the word "report".
abbrev parse : Parser
parse now name priority nsql =
    if str_eq nsql ""
    then err "empty"
    else ok (record reports {
      id = "rule-2";
      name = name;
      priority = priority;
      nsql_text = nsql;
      created_at = now;
      updated_at = now;
    })

abbrev weekly : FilterRule
weekly = record reports { nsql_text = "subject MATCHES report" }

abbrev one_rule : Rules literal
one_rule = record {
  db = record one_message { filter_rules = rule_row weekly ∷ [] };
  filter_engine = engine;
}

abbrev renaming : UpdateRuleRequest
renaming = record { id = reports.id; name = some "weekly"; nsql = none; priority = none }
