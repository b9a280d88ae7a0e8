-- ===== src/Filter/Validator/Limits/Contradictions.antt =====
-- Pass 5 of crates/nuncio-filter/src/validator.rs against the evaluation of the conditions in
-- crates/nuncio-filter/src/engine.rs.
use nuncio.Common.{◌≡◌, ◌≢◌, true, List, [], ok, err, arith, String, Option, none, some, &&_iff}
use nuncio.Common.Int.{ℤ, ◌≤ℤ◌, eq_of_le}
use nuncio.Core.Model.{Email}
use nuncio.Filter.Ast.{
  FilterField, FilterOperator, FilterValue, ConditionNode, Conditions, leaf, and, nil, cons, number,
  string, boolean, list,
}
use nuncio.Filter.Platform.{Platform}
use nuncio.Filter.Compiled.{eval_node, eval_all, eval_leaf, size_of, eval_number_op}
use nuncio.Filter.Validator.Checks.{ValidationError}
use nuncio.Filter.Validator.Limits.{
  SizeBounds, size_bound, leaf_bound, child_bound, size_bounds, bounds_clash, pass5_contradictions,
}

-- The size lies within the bounds that the loop has collected.
abbrev Above : ℤ → Option ℤ → Type 0
Above size none = Unit
Above size (some gt) = gt ≤ℤ size

abbrev Below : ℤ → Option ℤ → Type 0
Below size none = Unit
Below size (some lt) = size ≤ℤ lt

abbrev Within : ℤ → SizeBounds → Type 0
Within size b = Above size b.0 × Below size b.1

size_bound-Within :
    (size : ℤ) (op : FilterOperator) (n : ℤ) (b : SizeBounds)
    → eval_number_op size op (number n) ≡ true
    → Within size b
    → Within size (size_bound op n b)
unfolding size_bound eval_number_op
size_bound-Within size FilterOperator.greater_than n (gt, lt) h (a, c) = (ground arith, c)
size_bound-Within size FilterOperator.greater_than_or_equal n (gt, lt) h (a, c) = (ground arith, c)
size_bound-Within size FilterOperator.less_than n (gt, lt) h (a, c) = (a, ground arith)
size_bound-Within size FilterOperator.less_than_or_equal n (gt, lt) h (a, c) = (a, ground arith)
size_bound-Within size _ n b h w = w

module _ (p : Platform) (e : Email) (regexes : List (String × p.Regex)) where
  leaf_bound-Within :
      (field : FilterField) (op : FilterOperator) (v : FilterValue) (b : SizeBounds)
      → eval_leaf p (record { field = field; operator = op; value = v }) e regexes ≡ true
      → Within (size_of e.body_plain) b
      → Within (size_of e.body_plain) (leaf_bound field op v b)
  unfolding leaf_bound eval_leaf
  leaf_bound-Within FilterField.size op (number n) b h w = size_bound-Within _ op n b h w
  leaf_bound-Within _ op (number n) b h w = w
  leaf_bound-Within FilterField.size op (string s) b h w = w
  leaf_bound-Within _ op (string s) b h w = w
  leaf_bound-Within FilterField.size op (boolean s) b h w = w
  leaf_bound-Within _ op (boolean s) b h w = w
  leaf_bound-Within FilterField.size op (list s) b h w = w
  leaf_bound-Within _ op (list s) b h w = w

  child_bound-Within :
      (c : ConditionNode) (b : SizeBounds)
      → eval_node p c e regexes ≡ true
      → Within (size_of e.body_plain) b
      → Within (size_of e.body_plain) (child_bound c b)
  unfolding child_bound eval_node
  child_bound-Within (leaf l) b h w = leaf_bound-Within l.field l.operator l.value b h w
  child_bound-Within _ b h w = w

  size_bounds-Within :
      (cs : Conditions) (b : SizeBounds)
      → eval_all p cs e regexes ≡ true
      → Within (size_of e.body_plain) b
      → Within (size_of e.body_plain) (size_bounds cs b)
  unfolding size_bounds eval_node
  size_bounds-Within nil b h w = w
  size_bounds-Within (cons c cs) b h w =
      let (here, rest) = (&&_iff _ _).0 h in
      size_bounds-Within cs (child_bound c b) rest (child_bound-Within c b here w)

  clash-eq :
      (size : ℤ) (b : SizeBounds) {x : ValidationError}
      → bounds_clash b ≡ err x
      → Within size b
      → b ≡ (some size, some size)
  unfolding bounds_clash
  clash-eq size (some gt, some lt) h (a, c) =
      let low : lt ≤ℤ gt = ground arith in
      let at_gt : gt ≡ size = eq_of_le gt size a (ground arith) in
      let at_lt : lt ≡ size = eq_of_le lt size (ground arith) c in cc (at_gt, at_lt)
  clash-eq size (some gt, none) h w = cc h
  clash-eq size (none, lt) h w = cc h

  -- A conjunction that the pass rejects, and that holds of a message all the same, has the size of
  -- the message for its lower and for its upper bound: of a message of any other size it is false.
  pub pass5_sound :
      (cs : Conditions) (x : ValidationError)
      → pass5_contradictions (and cs) ≡ err x
      → eval_node p (and cs) e regexes ≡ true
      → size_bounds cs (none, none) ≡ (some (size_of e.body_plain), some (size_of e.body_plain))
  unfolding pass5_contradictions eval_node
  pass5_sound cs x h holds =
      clash-eq _ (size_bounds cs (none, none)) h (size_bounds-Within cs (none, none) holds (tt, tt))

-- The conjunction `size >= n AND size <= n`.
abbrev pub exactly : ℤ → Conditions
exactly n =
    cons
      (leaf (record {
        field = FilterField.size;
        operator = FilterOperator.greater_than_or_equal;
        value = number n;
      }))
      (cons
        (leaf (record {
          field = FilterField.size;
          operator = FilterOperator.less_than_or_equal;
          value = number n;
        }))
        nil)

-- The pass rejects `size >= n AND size <= n` as contradictory for every `n`, although it holds of
-- every message of size `n`.
pub exactly_rejected :
    (p : Platform) (e : Email) (n : ℤ)
    → size_of e.body_plain ≡ n
    → (pass5_contradictions (and (exactly n)) ≢ ok tt) × (eval_node p (and (exactly n)) e [] ≡ true)
unfolding pass5_contradictions eval_node eval_leaf
exactly_rejected p e n h = (ground arith, ground arith)
