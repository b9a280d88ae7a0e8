-- ===== src/Rpc/Filters/Updated.antt =====
-- The handlers `update_rule` and `delete_rule` of the service `Filters` of
-- crates/nunciod/src/grpc.rs.
use nuncio.Common.{String, ◌≡◌, false, List, [], Option, some, Result, ok, err, str_eq, find}
use nuncio.Common.Action.{◌>>=◌, ◌>>◌}
use nuncio.Filter.Ast.{FilterRule}
use nuncio.Filter.Platform.{Platform}
use nuncio.Filter.Validator.{validate}
use nuncio.Filter.Validator.Checks.{default_options}
use nuncio.Store.Host.{Host}
use nuncio.Store.Database.{SqlxError}
use nuncio.Store.Rules.{Parser, replace_rule, remove_rule}
use nuncio.Rpc.Service.{Status, given}
use nuncio.Rpc.Filters.{
  Rules, FilterRuleProto, UpdateRuleRequest, chosen, persist_rule, Call, parsed, admitted,
  map_filter_rule_to_proto,
}
use nuncio.Rpc.Filters.Agreement.{Stored, Untouched, stored_rules, ticked, PersistOutcome}

module _ (p : Platform) (host : Host) (parse : Parser) (show_sqlx : SqlxError → String) where
  -- The first stored rule of the id, and the rule that the request makes of it.
  abbrev pub Edits : UpdateRuleRequest → Rules p → FilterRule → FilterRule → Type 0
  Edits req s old rule =
      (find (λ r. str_eq r.id req.id) (stored_rules p host parse show_sqlx s) ≡ some old)
      × (parse (host.now s.db.ticks) (chosen req.name old.name) (chosen req.priority old.priority)
            (chosen req.nsql old.nsql_text)
          ≡ ok rule)
      × (validate p rule default_options ≡ ok tt)

  module _ (req : UpdateRuleRequest) (s : Rules p) where
    abbrev pub UpdateOutcome : Result Status FilterRuleProto × Rules p → Type 0
    UpdateOutcome (ok shown, t) =
        (old : FilterRule) × (rule : FilterRule) × Edits req s old rule
        × (shown ≡ map_filter_rule_to_proto (record rule { id = old.id }))
        × Stored p host parse show_sqlx s
            (replace_rule (record rule { id = old.id }) s.db.filter_rules) t
    UpdateOutcome (err e, t) = Untouched p host parse show_sqlx s t

    -- What the handler does once it has found the rule.
    abbrev edit : FilterRule → Call p host parse show_sqlx FilterRuleProto
    edit old =
        parsed p host parse show_sqlx (chosen req.name old.name) (chosen req.priority old.priority)
          (chosen req.nsql old.nsql_text)
        >>= λ rule.
            given (admitted p host parse show_sqlx rule)
            >> persist_rule p host parse show_sqlx (record rule { id = old.id })

    updated :
        (old rule : FilterRule) (o : List (Option String))
        (r : Result Status FilterRuleProto × Rules p)
        → Edits req s old rule
        → (s.db.outcomes ≡ [] → o ≡ [])
        → PersistOutcome p host parse show_sqlx
            (record rule { id = old.id })
            (ticked p host parse show_sqlx (record s { db = record s.db { outcomes = o } }))
            r
        → UpdateOutcome r
    updated old rule o (ok shown, t) m quiet (e, (rows, agrees)) =
        (old, rule, m, e, (rows, λ q. agrees (quiet q)))
    updated old rule o (err x, t) m quiet h = h

  module _ (id : String) (s : Rules p) where
    abbrev pub DeleteOutcome : Result Status (Unit {0}) × Rules p → Type 0
    DeleteOutcome (ok u, t) =
        (str_eq id "" ≡ false)
        × Stored p host parse show_sqlx s (remove_rule id s.db.filter_rules) t
    DeleteOutcome (err e, t) = Untouched p host parse show_sqlx s t
