-- ===== src/Filter/Engine/Evaluation.antt =====
-- What `FilterEngine::evaluate` of crates/nuncio-filter/src/engine.rs returns, from the rules that
-- the engine was built with.
use nuncio.Common.{
  ◌≡◌, refl, Bool, List, [], ◌∷◌, map, ◌&&◌, ok, keep, All, arith, >>=-eq-ok, Bool-cases, if_true,
  if_false, inl, inr,
}
use mathlib.Core.Path.{subst}
use nuncio.Common.Int.{◌≤ℤ◌}
use nuncio.Common.Sort.{sort_by_key, IsSorted, sort_by_key-IsSorted}
use nuncio.Core.Model.{Email}
use nuncio.Filter.Ast.{FilterRule, RuleAction}
use nuncio.Filter.Platform.{Platform}
use nuncio.Filter.Compiled.{CompiledFilter, matches_account, compile, eval_node}
use nuncio.Filter.Compiled.Cached.{compile_correct}
use nuncio.Filter.Engine.{
  FilterEngine, compile_enabled, new_set, new, fires, evaluate_from, evaluate,
}

module _ (p : Platform) where
  -- A rule applies to a message: it is enabled, covers the account, and its conditions hold.
  abbrev pub applies : Email → FilterRule → Bool
  applies e r = r.enabled && (matches_account p r e.account_id && eval_node p r.conditions e [])

  abbrev pub with_actions : FilterRule → FilterRule × List RuleAction
  with_actions r = (r, r.actions)

  evaluate_compiled :
      (e : Email) (rules : List FilterRule) (fs : List (CompiledFilter p))
      → compile_enabled p rules ≡ ok fs
      → evaluate_from p fs e ≡ map with_actions (keep (applies e) rules)
  unfolding evaluate_from compile_enabled
  evaluate_compiled e [] fs h =
      let same : [] ≡ fs = cc h in subst (λ gs. evaluate_from p gs e ≡ []) same refl
  evaluate_compiled e (rule ∷ rules) fs h = elim (Bool-cases rule.enabled) [
    | inl on ↦
        let (f, compiled, h') = >>=-eq-ok (compile p rule) _ (if_true rule.enabled _ _ on h) in
        let (gs, rest, same) = >>=-eq-ok (compile_enabled p rules) _ h' in
        let (source, condition) = compile_correct p rule f e compiled in
        let same' : f ∷ gs ≡ fs = cc same in
        subst (λ hs. evaluate_from p hs e ≡ map with_actions (keep (applies e) (rule ∷ rules)))
          same'
          (unfold fires in ground (arith, source, condition, evaluate_compiled e rules gs rest))
    | inr off ↦ ground (arith, evaluate_compiled e rules fs (if_false rule.enabled _ _ off h))
  ]

  All-keep :
      (P : FilterRule × List RuleAction → Type 0) (e : Email) (rules : List FilterRule)
      → All (λ r. P (with_actions r)) rules
      → All P (map with_actions (keep (applies e) rules))
  All-keep P e [] h = tt
  All-keep P e (r ∷ rules) (q, h) = elim (Bool-cases (applies e r)) [
    | inl t ↦ rw t (q, All-keep P e rules h)
    | inr f ↦ rw f (All-keep P e rules h)
  ]

  keep-IsSorted :
      (e : Email) (rules : List FilterRule)
      → IsSorted (λ r. r.priority) rules
      → IsSorted (λ ra. ra.0.priority) (map with_actions (keep (applies e) rules))
  keep-IsSorted e [] h = tt
  keep-IsSorted e (r ∷ rules) (q, h) = elim (Bool-cases (applies e r)) [
    | inl t ↦ rw t (All-keep (λ ra. r.priority ≤ℤ ra.0.priority) e rules q, keep-IsSorted e rules h)
    | inr f ↦ rw f (keep-IsSorted e rules h)
  ]

  -- An engine that was built from rules returns, for a message, exactly the enabled rules that cover
  -- its account and whose conditions hold of it, each with its actions, in ascending priority (rules
  -- of one priority stay in the given order).
  pub new-evaluate :
      (rules : List FilterRule) (engine : FilterEngine p) (e : Email)
      → new p rules ≡ ok engine
      → (evaluate p engine e
          ≡ map with_actions (keep (applies e) (sort_by_key (λ r. r.priority) rules)))
        × IsSorted (λ ra. ra.0.priority) (evaluate p engine e)
  unfolding new new_set evaluate
  new-evaluate rules engine e h =
      let sorted = sort_by_key (λ r. r.priority) rules in
      let (set, built, same) = >>=-eq-ok (new_set p rules) _ h in
      let (fs, compiled, same_set) = >>=-eq-ok (compile_enabled p sorted) _ built in
      let there : fs ≡ engine.cache.filters = cc (same, same_set) in
      let eq : evaluate_from p engine.cache.filters e ≡ map with_actions (keep (applies e) sorted) =
        rw (← there) (evaluate_compiled e sorted fs compiled) in
      (eq, rw eq (keep-IsSorted e sorted (sort_by_key-IsSorted (λ r. r.priority) rules)))
