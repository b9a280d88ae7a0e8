-- ===== src/Filter/Compiled/Cached.antt =====
-- The cache of compiled patterns in crates/nuncio-filter/src/engine.rs: it changes no result.
use nuncio.Common.{
  String, ◌≡◌, refl, ap, not, List, [], ◌∷◌, ◌++◌, Result, ok, err, ◌>>=◌, map_err, All, All-append,
  arith, eq_iff, >>=-eq-ok,
}
use nuncio.Common.Text.{◌⧺◌}
use mathlib.Core.Path.{subst}
use nuncio.Core.Model.{Email}
use nuncio.Filter.Ast.{
  FilterField, FilterOperator, FilterValue, ConditionLeaf, ConditionNode, Conditions, FilterRule,
  leaf, and, or, nil, cons, string, number, boolean, list,
}
use nuncio.Filter.Platform.{Platform}
use nuncio.Filter.Compiled.{
  CompiledFilter, collect_leaf, collect_regexes, collect_children, compile, eval_matches,
  eval_string_op, eval_field, eval_leaf, eval_node, eval_all, eval_any, evaluate_condition,
}

module _ (p : Platform) where
  open p use {Regex, regex_new}

  -- Every cached expression is what compiling its pattern gives.
  abbrev IsFaithful : List (String × Regex) → Type 0
  IsFaithful = All (λ r. regex_new r.0 ≡ ok r.1)

  collect_leaf-IsFaithful :
      (op : FilterOperator) (v : FilterValue) (acc : List (String × Regex))
      {out : List (String × Regex)}
      → IsFaithful acc
      → collect_leaf p op v acc ≡ ok out
      → IsFaithful out
  unfolding collect_leaf
  collect_leaf-IsFaithful FilterOperator.matches (string pat) acc {out} h e =
      compiled (regex_new pat) refl e
    where
      compiled :
          (r : Result String Regex)
          → regex_new pat ≡ r
          → (map_err (λ x. "regex compile error: " ⧺ x) r >>= λ re. ok (acc ++ (pat, re) ∷ []))
            ≡ ok out
          → IsFaithful out
      compiled (ok re) c e =
          let done : acc ++ (pat, re) ∷ [] ≡ out = cc e in
          subst IsFaithful done (All-append _ acc _ h (c, tt))
      compiled (err x) c e = cc e
  collect_leaf-IsFaithful _ _ acc {out} h e = subst IsFaithful (cc e) h

  eval_matches_lem :
      (h pat : String) (regexes : List (String × Regex))
      → IsFaithful regexes
      → eval_matches p h pat regexes ≡ eval_matches p h pat []
  unfolding eval_matches
  eval_matches_lem h pat [] f = refl
  eval_matches_lem h pat ((q, re) ∷ rest) (e, f) =
      ground (arith, eval_matches_lem h pat rest f, eq_iff q pat)

  mutual
    unfolding collect_regexes

    collect-IsFaithful :
        (node : ConditionNode) (acc : List (String × Regex)) {out : List (String × Regex)}
        → IsFaithful acc
        → collect_regexes p node acc ≡ ok out
        → IsFaithful out
    collect-IsFaithful (leaf l) acc h e = collect_leaf-IsFaithful l.operator l.value acc h e
    collect-IsFaithful (and children) acc h e = collect_children-IsFaithful children acc h e
    collect-IsFaithful (or children) acc h e = collect_children-IsFaithful children acc h e
    collect-IsFaithful (ConditionNode.not inner) acc h e = collect-IsFaithful inner acc h e

    collect_children-IsFaithful :
        (children : Conditions) (acc : List (String × Regex)) {out : List (String × Regex)}
        → IsFaithful acc
        → collect_children p children acc ≡ ok out
        → IsFaithful out
    collect_children-IsFaithful nil acc h e = subst IsFaithful (cc e) h
    collect_children-IsFaithful (cons c cs) acc h e =
        let (mid, first, rest) = >>=-eq-ok (collect_regexes p c acc) (collect_children p cs) e in
        collect_children-IsFaithful cs mid (collect-IsFaithful c acc h first) rest

  module _ (e : Email) (regexes : List (String × Regex)) (f : IsFaithful regexes) where
    eval_string_op_lem :
        (h : String) (op : FilterOperator) (v : FilterValue)
        → eval_string_op p h op v regexes ≡ eval_string_op p h op v []
    unfolding eval_string_op
    eval_string_op_lem h FilterOperator.matches (string pat) = eval_matches_lem h pat regexes f
    eval_string_op_lem h _ (string s) = refl
    eval_string_op_lem h FilterOperator.equals (number n) = refl
    eval_string_op_lem h _ (number n) = refl
    eval_string_op_lem h FilterOperator.equals (boolean b) = refl
    eval_string_op_lem h _ (boolean b) = refl
    eval_string_op_lem h FilterOperator.equals (list l) = refl
    eval_string_op_lem h _ (list l) = refl

    eval_field_lem :
        (field : FilterField) (l : ConditionLeaf)
        → eval_field p field l e regexes ≡ eval_field p field l e []
    unfolding eval_field
    eval_field_lem FilterField.has_attachment l = refl
    eval_field_lem FilterField.size l = refl
    eval_field_lem FilterField.date l = refl
    eval_field_lem (FilterField.header name) l = refl
    eval_field_lem _ l = eval_string_op_lem _ l.operator l.value

    eval_leaf_lem : (l : ConditionLeaf) → eval_leaf p l e regexes ≡ eval_leaf p l e []
    unfolding eval_leaf
    eval_leaf_lem l = eval_field_lem l.field l

    mutual
      unfolding eval_node

      eval_node_lem : (node : ConditionNode) → eval_node p node e regexes ≡ eval_node p node e []
      eval_node_lem (leaf l) = eval_leaf_lem l
      eval_node_lem (and children) = eval_all_lem children
      eval_node_lem (or children) = eval_any_lem children
      eval_node_lem (ConditionNode.not inner) = ap not (eval_node_lem inner)

      eval_all_lem : (cs : Conditions) → eval_all p cs e regexes ≡ eval_all p cs e []
      eval_all_lem nil = refl
      eval_all_lem (cons c cs) = cc (eval_node_lem c, eval_all_lem cs)

      eval_any_lem : (cs : Conditions) → eval_any p cs e regexes ≡ eval_any p cs e []
      eval_any_lem nil = refl
      eval_any_lem (cons c cs) = cc (eval_node_lem c, eval_any_lem cs)

  -- A rule that compiles keeps its source rule, and evaluates every message as its conditions do
  -- when each pattern is compiled on the spot.
  pub compile_correct :
      (rule : FilterRule) (f : CompiledFilter p) (e : Email)
      → compile p rule ≡ ok f
      → (f.rule ≡ rule) × (evaluate_condition p f e ≡ eval_node p rule.conditions e [])
  unfolding compile evaluate_condition
  compile_correct rule f e h =
      let (regexes, collected, built) = >>=-eq-ok (collect_regexes p rule.conditions []) _ h in
      subst (λ g. (g.rule ≡ rule) × (evaluate_condition p g e ≡ eval_node p rule.conditions e []))
        (cc built)
        (
          refl,
          eval_node_lem e regexes (collect-IsFaithful rule.conditions [] tt collected)
              rule.conditions,
        )
