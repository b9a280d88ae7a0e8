-- ===== src/Filter/Engine.antt =====
-- `CompiledFilterSet` and `FilterEngine` of crates/nuncio-filter/src/engine.rs. The `ArcSwap` of the
-- cache is a field of the engine's state.
pub mod Evaluation
pub mod Preview
use nuncio.Common.{
  ℕ, String, Bool, true, false, not, List, [], ◌∷◌, ◌++◌, Option, none, some, ◌&&◌, if◌then◌else◌,
  Result, ok, err, ◌>>=◌,
}
use nuncio.Common.Sort.{sort_by_key}
use nuncio.Common.Text.{◌⧺◌, decimal_ℤ}
use nuncio.Core.Model.{Email}
use nuncio.Filter.Ast.{RuleAction, FilterRule}
use nuncio.Filter.Platform.{Platform}
use nuncio.Filter.Compiled.{CompiledFilter, matches_account, compile, evaluate_condition}

pub record CompiledFilterSet (p : Platform) : Type 0 where
  pub filters : List (CompiledFilter p)

pub record FilterEngine (p : Platform) : Type 0 where
  pub cache : CompiledFilterSet p

pub record FilterPreviewResult : Type 0 where
  pub message_id : String
  pub matched : Bool
  pub matched_rule_id : Option String
  pub matched_rule_name : Option String
  pub actions_evaluated : List RuleAction
  pub execution_time_us : ℕ
  pub condition_traces : List String

module _ (p : Platform) where
  -- The loop of `CompiledFilterSet::new`, over the sorted rules.
  compile_enabled : List FilterRule → Result String (List (CompiledFilter p))
  compile_enabled [] = ok []
  compile_enabled (rule ∷ rules) =
      let rest = compile_enabled rules in
      if rule.enabled then (do f ← compile p rule; fs ← rest; ok (f ∷ fs)) else rest

  unfoldable pub new_set : List FilterRule → Result String (CompiledFilterSet p)
  unfolding compile_enabled
  new_set rules = do
    filters ← compile_enabled (sort_by_key (λ r. r.priority) rules)
    ok (record { filters = filters })

  unfoldable pub new : List FilterRule → Result String (FilterEngine p)
  unfolding new_set
  new rules = do set ← new_set rules; ok (record { cache = set })

  -- The engine after the call, and the result.
  unfoldable pub reload_rules :
      FilterEngine p → List FilterRule → FilterEngine p × Result String (Unit {0})
  reload_rules engine rules = elim (new_set rules) [
    | ok set ↦ (record { cache = set }, ok tt)
    | err e ↦ (engine, err e)
  ]

  -- The guard of the loops of `evaluate`.
  fires : CompiledFilter p → Email → Bool
  fires f e = matches_account p f.rule e.account_id && evaluate_condition p f e

  evaluate_from : List (CompiledFilter p) → Email → List (FilterRule × List RuleAction)
  unfolding fires
  evaluate_from [] e = []
  evaluate_from (f ∷ fs) e =
      let rest = evaluate_from fs e in if fires f e then (f.rule, f.rule.actions) ∷ rest else rest

  unfoldable pub evaluate : FilterEngine p → Email → List (FilterRule × List RuleAction)
  unfolding evaluate_from
  evaluate engine e = evaluate_from engine.cache.filters e

  -- The timer either elapses, and the default list is returned, or it does not.
  pub evaluate_with_timeout : FilterEngine p → Email → Bool → List (FilterRule × List RuleAction)
  evaluate_with_timeout engine e elapsed = if elapsed then [] else evaluate engine e

  trace : FilterRule → String → String
  trace rule verdict =
      "Rule '" ⧺ rule.name ⧺ "' (priority " ⧺ decimal_ℤ rule.priority ⧺ "): " ⧺ verdict

  -- One round of the loop of `preview`: it pushes a trace, and keeps the first match.
  preview_step : CompiledFilter p → Email → FilterPreviewResult → FilterPreviewResult
  unfolding trace
  preview_step f e r =
      if not (matches_account p f.rule e.account_id)
      then record r {
        condition_traces =
            r.condition_traces ++ trace f.rule "SKIPPED (account scope mismatch)" ∷ [];
      }
      else let hit = evaluate_condition p f e in
        let traces =
          r.condition_traces ++ trace f.rule (if hit then "MATCH" else "NO MATCH") ∷ [] in
        if hit && not r.matched
        then record r {
          matched = true;
          matched_rule_id = some f.rule.id;
          matched_rule_name = some f.rule.name;
          actions_evaluated = f.rule.actions;
          condition_traces = traces;
        }
        else record r { condition_traces = traces }

  preview_from : List (CompiledFilter p) → Email → FilterPreviewResult → FilterPreviewResult
  unfolding preview_step
  preview_from [] e r = r
  preview_from (f ∷ fs) e r = preview_from fs e (preview_step f e r)

  -- `elapsed` is what the clock measures.
  unfoldable pub preview : FilterEngine p → Email → ℕ → FilterPreviewResult
  unfolding preview_from
  preview engine e elapsed = preview_from engine.cache.filters e (record {
    message_id = e.id;
    matched = false;
    matched_rule_id = none;
    matched_rule_name = none;
    actions_evaluated = [];
    execution_time_us = elapsed;
    condition_traces = [];
  })
