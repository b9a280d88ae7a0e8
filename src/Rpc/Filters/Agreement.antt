-- ===== src/Rpc/Filters/Agreement.antt =====
-- The rule table and the live engine under the handlers of the service `Filters` of
-- crates/nunciod/src/grpc.rs.
use nuncio.Common.{
  ◌+◌, String, ◌≡◌, refl, sym, ap, ◌∙◌, inl, inr, List, [], Option, Result, ok, err, ok-inj,
  map_err, map_err-eq-ok,
}
use nuncio.Common.Int.{ℤ}
use nuncio.Common.Sort.{sort_by_key}
use nuncio.Common.Action.{continue, ◌>>◌}
use nuncio.Filter.Ast.{FilterRule}
use nuncio.Filter.Platform.{Platform}
use nuncio.Filter.Engine.{FilterEngine, new, reload_rules}
use nuncio.Filter.Engine.Preview.{reload_atomic}
use nuncio.Filter.Validator.{validate}
use nuncio.Filter.Validator.Checks.{default_options}
use nuncio.Store.Host.{Host}
use nuncio.Store.Database.{Database, SqlxError, RuleRow, statement, modify}
use nuncio.Store.Database.Statements.{statement-cases, statement-quiet}
use nuncio.Store.Rules.{Parser, replace_rule, save_filter_rule, rules_of, list_filter_rules}
use nuncio.Rpc.Service.{Status}
use nuncio.Rpc.Service.Steps.{given-step}
use nuncio.Rpc.Filters.{
  Rules, FilterRuleProto, on_store, take_rules, reload_engine_from_store, parsed, syntax_error,
  admitted, persist_rule, map_filter_rule_to_proto,
}

module _ (p : Platform) (host : Host) (parse : Parser) (show_sqlx : SqlxError → String) where
  -- The rules that the table makes.
  abbrev pub stored_rules : Rules p → List FilterRule
  stored_rules s =
      rules_of parse (host.now s.db.ticks) (sort_by_key (λ r. r.priority) s.db.filter_rules)

  -- The engine is the one that the stored rules make, if they make one.
  abbrev pub Agrees : Rules p → Type 0
  Agrees s =
      (now : ℤ) × ((engine : FilterEngine p)
        → new p (rules_of parse now (sort_by_key (λ r. r.priority) s.db.filter_rules)) ≡ ok engine
        → s.filter_engine ≡ engine)

  -- The table is the given one, and the engine agrees with it if the database answers.
  abbrev pub Stored : Rules p → List RuleRow → Rules p → Type 0
  Stored s rows t = (t.db.filter_rules ≡ rows) × (s.db.outcomes ≡ [] → Agrees t)

  -- Neither the table nor the engine changed.
  abbrev pub Untouched : Rules p → Rules p → Type 0
  Untouched s t = (t.db.filter_rules ≡ s.db.filter_rules) × (t.filter_engine ≡ s.filter_engine)

  -- Rules that compile become the engine.
  reloaded :
      (engine : FilterEngine p) (rules : List FilterRule) (made : FilterEngine p)
      → new p rules ≡ ok made
      → (reload_rules p engine rules).0 ≡ made
  reloaded engine rules made h = elim (reload_atomic p engine rules) [
    | inl (done, e) ↦ ok-inj (sym e ∙ h)
    | inr (m, failed, e, kept) ↦ cc (h, e)
  ]

  -- A reload of a database that answers makes the engine agree, and no reload changes the table.
  pub reload-table :
      (s : Rules p)
      → (reload_engine_from_store p host parse show_sqlx s).db.filter_rules ≡ s.db.filter_rules
  unfolding reload_engine_from_store list_filter_rules take_rules
  reload-table s =
      let (o, c) = statement-cases s.db in elim c [ inl e ↦ rw e refl | inr (x, e) ↦ rw e refl ]

  pub reload-Agrees :
      (s : Rules p)
      → s.db.outcomes ≡ []
      → Agrees (reload_engine_from_store p host parse show_sqlx s)
  unfolding reload_engine_from_store list_filter_rules take_rules
  reload-Agrees s quiet =
      rw (statement-quiet s.db quiet)
        (host.now s.db.ticks, λ engine h. reloaded s.filter_engine _ engine h)

  -- A write of the rule table, and what follows it.
  pub stored-step :
      {A : Type 0} (P : Result Status A × Rules p → Type 0)
      (next : Unit {0} → Rules p → Result Status A × Rules p) (text : String)
      (f : Database → Database) (s : Rules p)
      → ((o : List (Option String))
          → (s.db.outcomes ≡ [] → o ≡ [])
          → P (next tt (record s { db = f (record s.db { outcomes = o }) })))
      → ((e : Status) (o : List (Option String))
          → P (err e, record s { db = record s.db { outcomes = o } }))
      → P (continue next (on_store p host parse show_sqlx text (statement >> modify f) s))
  stored-step P next text f s h k =
      let (o, c) = statement-cases s.db in
      elim c [
        | inl e ↦
            rw e
              (h o (λ quiet. ap (λ r. r.1.outcomes) (sym e ∙ statement-quiet s.db quiet) ∙ quiet))
        | inr (x, e) ↦ rw e (k _ o)
      ]

  -- A rule that was admitted and persisted, or nothing.
  abbrev pub PersistOutcome :
      FilterRule → Rules p → Result Status FilterRuleProto × Rules p → Type 0
  PersistOutcome rule s (ok shown, t) =
      (shown ≡ map_filter_rule_to_proto rule) × Stored s (replace_rule rule s.db.filter_rules) t
  PersistOutcome rule s (err e, t) = Untouched s t

  pub persist_rule-PersistOutcome :
      (rule : FilterRule) (s : Rules p)
      → PersistOutcome rule s (persist_rule p host parse show_sqlx rule s)
  unfolding persist_rule save_filter_rule
  persist_rule-PersistOutcome rule s =
      stored-step (PersistOutcome rule s) _ "failed to persist filter rule: " _ s
        (λ o quiet. (refl, (reload-table _, λ q. reload-Agrees _ (quiet q)))) (λ e o. (refl, refl))

  -- The rule that a text and a name make.
  abbrev pub Makes : (name : String) (priority : ℤ) (nsql : String) → Rules p → FilterRule → Type 0
  Makes name priority nsql s rule =
      (parse (host.now s.db.ticks) name priority nsql ≡ ok rule)
      × (validate p rule default_options ≡ ok tt)

  -- The validation, and what follows it.
  pub admitted-step :
      (P : Result Status FilterRuleProto × Rules p → Type 0)
      (next : Rules p → Result Status FilterRuleProto × Rules p) (rule : FilterRule) (s : Rules p)
      → (validate p rule default_options ≡ ok tt → P (next s))
      → ((e : Status) → P (err e, s))
      → P (continue (λ u. next) (admitted p host parse show_sqlx rule, s))
  unfolding admitted
  admitted-step P next rule s h k =
      given-step P (λ u. next) _ s (λ u e. h (map_err-eq-ok _ (validate p rule default_options) e))
        (λ x e. k x)

  -- The state after the parser read the clock.
  abbrev pub ticked : Rules p → Rules p
  ticked s = record s { db = record s.db { ticks = s.db.ticks + 1 } }

  -- The parser, and what follows it.
  pub parsed-step :
      {A : Type 0} (P : Result Status A × Rules p → Type 0)
      (next : FilterRule → Rules p → Result Status A × Rules p) (name : String) (priority : ℤ)
      (nsql : String) (s : Rules p)
      → ((rule : FilterRule)
          → parse (host.now s.db.ticks) name priority nsql ≡ ok rule
          → P (next rule (ticked s)))
      → ((e : Status) → P (err e, ticked s))
      → P (continue next (parsed p host parse show_sqlx name priority nsql s))
  unfolding parsed
  parsed-step P next name priority nsql s h k =
      made (parse (host.now s.db.ticks) name priority nsql) refl
    where
      made :
          (r : Result String FilterRule)
          → parse (host.now s.db.ticks) name priority nsql ≡ r
          → P (continue next (map_err syntax_error r, ticked s))
      made (err x) e = k (syntax_error x)
      made (ok rule) e = h rule e

  -- The list of the stored rules, and what follows it.
  pub listed-step :
      {A : Type 0} (P : Result Status A × Rules p → Type 0)
      (next : List FilterRule → Rules p → Result Status A × Rules p) (text : String) (s : Rules p)
      → ((o : List (Option String))
          → (s.db.outcomes ≡ [] → o ≡ [])
          → P (next (stored_rules s) (record s { db = record s.db { outcomes = o } })))
      → ((e : Status) (o : List (Option String))
          → P (err e, record s { db = record s.db { outcomes = o } }))
      → P (
          continue next (
            on_store p host parse show_sqlx text (list_filter_rules parse (host.now s.db.ticks)) s))
  unfolding list_filter_rules
  listed-step P next text s h k =
      let (o, c) = statement-cases s.db in
      elim c [
        | inl e ↦
            rw e
              (h o (λ quiet. ap (λ r. r.1.outcomes) (sym e ∙ statement-quiet s.db quiet) ∙ quiet))
        | inr (x, e) ↦ rw e (k _ o)
      ]

  module _ (name nsql : String) (priority : ℤ) (s : Rules p) where
    abbrev pub CreateOutcome : Result Status FilterRuleProto × Rules p → Type 0
    CreateOutcome (ok shown, t) =
        (rule : FilterRule) × Makes name priority nsql s rule
        × (shown ≡ map_filter_rule_to_proto rule)
        × Stored s (replace_rule rule s.db.filter_rules) t
    CreateOutcome (err e, t) = Untouched s t
