-- ===== src/Filter/Engine/Preview.antt =====
-- `preview`, `evaluate_with_timeout` and `reload_rules` of crates/nuncio-filter/src/engine.rs, against
-- `evaluate`.
use mathlib.Core.Option
use nuncio.Common.{
  ℕ, ◌+◌, ◌≡◌, refl, true, false, not, List, [], ◌∷◌, if◌then◌else◌, ok, err, arith, String, Result,
  none, head?, is_empty, length, length-append, ◌⊎◌, inl, inr,
}
use nuncio.Core.Model.{Email}
use nuncio.Filter.Ast.{FilterRule, RuleAction}
use nuncio.Filter.Platform.{Platform}
use nuncio.Filter.Compiled.{CompiledFilter, evaluate_condition}
use nuncio.Filter.Engine.{
  CompiledFilterSet, FilterEngine, FilterPreviewResult, new_set, new, reload_rules, evaluate_from,
  evaluate, trace, preview_step, preview_from, preview,
}

module _ (p : Platform) (e : Email) where
  -- A first match is kept by the later rounds.
  preview_kept :
      (fs : List (CompiledFilter p)) (r : FilterPreviewResult)
      → r.matched ≡ true
      → (preview_from p fs e r).matched ≡ true
        × ((preview_from p fs e r).matched_rule_id ≡ r.matched_rule_id)
        × ((preview_from p fs e r).actions_evaluated ≡ r.actions_evaluated)
  unfolding preview_from
  preview_kept [] r h = (h, refl, refl)
  preview_kept (f ∷ fs) r h = ground (arith, preview_kept fs (preview_step p f e r))

  abbrev pub actions_of : List (FilterRule × List RuleAction) → List RuleAction
  actions_of [] = []
  actions_of (ra ∷ rest) = ra.1

  preview_first :
      (fs : List (CompiledFilter p)) (r : FilterPreviewResult)
      → r.matched ≡ false
      → r.matched_rule_id ≡ none
      → r.actions_evaluated ≡ []
      → (preview_from p fs e r).matched ≡ not (is_empty (evaluate_from p fs e))
        × ((preview_from p fs e r).matched_rule_id
            ≡ Option.map (λ ra. ra.0.id) (head? (evaluate_from p fs e)))
        × ((preview_from p fs e r).actions_evaluated ≡ actions_of (evaluate_from p fs e))
  unfolding preview_from evaluate_from
  preview_first [] r m i a = (m, i, a)
  preview_first (f ∷ fs) r m i a =
      ground
        (arith, preview_kept fs (preview_step p f e r), preview_first fs (preview_step p f e r))

  traces_step :
      (f : CompiledFilter p) (r : FilterPreviewResult)
      → length (preview_step p f e r).condition_traces ≡ length r.condition_traces + 1
  unfolding preview_step
  traces_step f r =
      let pushed =
        λ (verdict : String). length-append r.condition_traces (trace p f.rule verdict ∷ []) in
      ground (
        arith,
        pushed "SKIPPED (account scope mismatch)",
        pushed (if evaluate_condition p f e then "MATCH" else "NO MATCH"),
      )

  traces_from :
      (fs : List (CompiledFilter p)) (r : FilterPreviewResult)
      → length (preview_from p fs e r).condition_traces ≡ length r.condition_traces + length fs
  unfolding preview_from
  traces_from [] r = omega arith
  traces_from (f ∷ fs) r = omega (arith, traces_from fs (preview_step p f e r), traces_step f r)

  -- A dry run reports a match exactly when `evaluate` returns something, names the first rule that
  -- `evaluate` returns, with its actions, and has one trace for each rule of the engine.
  pub preview_agrees :
      (engine : FilterEngine p) (elapsed : ℕ)
      → ((preview p engine e elapsed).matched ≡ not (is_empty (evaluate p engine e)))
        × ((preview p engine e elapsed).matched_rule_id
            ≡ Option.map (λ ra. ra.0.id) (head? (evaluate p engine e)))
        × ((preview p engine e elapsed).actions_evaluated ≡ actions_of (evaluate p engine e))
        × (length (preview p engine e elapsed).condition_traces ≡ length engine.cache.filters)
  unfolding preview evaluate
  preview_agrees engine elapsed =
      let (m, i, a) = preview_first engine.cache.filters _ refl refl refl in
      (m, i, a, omega (arith, traces_from engine.cache.filters _))

module _ (p : Platform) where
  -- A reload succeeds exactly when a new engine can be built from the rules, and is then that
  -- engine; a failed reload reports the same error and leaves the old rules in force.
  pub reload_atomic :
      (engine : FilterEngine p) (rules : List FilterRule)
      → ((reload_rules p engine rules).1 ≡ ok tt)
          × (new p rules ≡ ok (reload_rules p engine rules).0)
        ⊎ ((m : String) × ((reload_rules p engine rules).1 ≡ err m)
            × (new p rules ≡ err m)
            × ((reload_rules p engine rules).0 ≡ engine))
  unfolding reload_rules new
  reload_atomic engine rules = built (new_set p rules) refl
    where
      built :
          (r : Result String (CompiledFilterSet p))
          → new_set p rules ≡ r
          → ((reload_rules p engine rules).1 ≡ ok tt)
              × (new p rules ≡ ok (reload_rules p engine rules).0)
            ⊎ ((m : String) × ((reload_rules p engine rules).1 ≡ err m)
                × (new p rules ≡ err m)
                × ((reload_rules p engine rules).0 ≡ engine))
      built (ok set) h = inl (ground arith, ground arith)
      built (err m) h = inr (m, ground arith, ground arith, ground arith)
