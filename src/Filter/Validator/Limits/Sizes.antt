-- ===== src/Filter/Validator/Limits/Sizes.antt =====
-- What pass 5 of crates/nuncio-filter/src/validator.rs compares: the last lower and the last upper
-- bound on the size among the children of a conjunction.
use nuncio.Common.{
  ◌≡◌, ◌↔◌, refl, ap, ◌∙◌, ok, arith, Option, none, some, ◌⊎◌, inl, inr, Bool-cases,
}
use mathlib.Core.Path.{subst}
use nuncio.Common.Int.{ℤ, ◌≤ℤ◌, leb_ℤ}
use nuncio.Filter.Ast.{
  FilterField, FilterOperator, FilterValue, ConditionNode, Conditions, leaf, and, nil, cons, number,
}
use nuncio.Filter.Validator.Limits.{
  SizeBounds, size_bound, leaf_bound, child_bound, size_bounds, bounds_clash, pass5_contradictions,
}

-- A child is a test that the size is above, or below, a number.
abbrev pub IsLower : ConditionNode → ℤ → Type 0
IsLower (leaf l) n =
    (l.field ≡ FilterField.size)
    × ((l.operator ≡ FilterOperator.greater_than)
        ⊎ (l.operator ≡ FilterOperator.greater_than_or_equal))
    × (l.value ≡ number n)
IsLower _ n = ⊥

abbrev pub IsUpper : ConditionNode → ℤ → Type 0
IsUpper (leaf l) n =
    (l.field ≡ FilterField.size)
    × ((l.operator ≡ FilterOperator.less_than) ⊎ (l.operator ≡ FilterOperator.less_than_or_equal))
    × (l.value ≡ number n)
IsUpper _ n = ⊥

module _ (Q : ConditionNode → ℤ → Type 0) where
  abbrev pub Absent : Conditions → Type 0
  Absent nil = Unit
  Absent (cons c cs) = ((m : ℤ) → Q c m → ⊥) × Absent cs

  -- The last child of the kind has the number.
  abbrev pub Last : Conditions → ℤ → Type 0
  Last nil n = ⊥
  Last (cons c cs) n = Last cs n ⊎ (Q c n × Absent cs)

  Absent-Last : (cs : Conditions) (n : ℤ) → Absent cs → Last cs n → ⊥
  Absent-Last nil n h l = l
  Absent-Last (cons c cs) n (not_here, h) (inl l) = Absent-Last cs n h l
  Absent-Last (cons c cs) n (not_here, h) (inr (q, k)) = not_here n q

  Last-unique :
      ((c : ConditionNode) (n m : ℤ) → Q c n → Q c m → n ≡ m)
      → (cs : Conditions) (n m : ℤ) → Last cs n
      → Last cs m
      → n ≡ m
  Last-unique one nil n m h k = absurd h
  Last-unique one (cons c cs) n m (inl h) (inl k) = Last-unique one cs n m h k
  Last-unique one (cons c cs) n m (inl h) (inr (q, k)) = absurd (Absent-Last cs n k h)
  Last-unique one (cons c cs) n m (inr (q, h)) (inl k) = absurd (Absent-Last cs m h k)
  Last-unique one (cons c cs) n m (inr (q, h)) (inr (r, k)) = one c n m q r

  module _ (side : SizeBounds → Option ℤ) where
    -- A child sets the side of the bounds, or leaves it.
    abbrev Sets : ConditionNode → SizeBounds → SizeBounds → Type 0
    Sets c b d = ((n : ℤ) × Q c n × (side d ≡ some n)) ⊎ (((m : ℤ) → Q c m → ⊥) × (side d ≡ side b))

    module _ (sets : (c : ConditionNode) (b : SizeBounds) → Sets c b (child_bound c b)) where
      size_bounds-Last :
          (cs : Conditions) (b : SizeBounds)
          → ((n : ℤ) × Last cs n × (side (size_bounds cs b) ≡ some n))
            ⊎ (Absent cs × (side (size_bounds cs b) ≡ side b))
      unfolding size_bounds
      size_bounds-Last nil b = inr (tt, refl)
      size_bounds-Last (cons c cs) b = elim (size_bounds-Last cs (child_bound c b)) [
        | inl (n, l, e) ↦ inl (n, inl l, e)
        | inr (none_left, e) ↦ elim (sets c b) [
          | inl (n, q, f) ↦ inl (n, inr (q, none_left), e ∙ f)
          | inr (not_here, f) ↦ inr ((not_here, none_left), e ∙ f)
        ]
      ]

      size_bounds_iff :
          ((c : ConditionNode) (n m : ℤ) → Q c n → Q c m → n ≡ m)
          → (cs : Conditions) (b : SizeBounds) (n : ℤ) → side b ≡ none
          → (side (size_bounds cs b) ≡ some n) ↔ Last cs n
      size_bounds_iff one cs b n empty = elim (size_bounds-Last cs b) [
        | inl (k, l, e) ↦ (
          λ h. let same : k ≡ n = cc (e, h) in subst (Last cs) same l,
          λ h. e ∙ ap some (Last-unique one cs k n l h),
        )
        | inr (gone, e) ↦ (λ h. cc (e, h, empty), λ h. absurd (Absent-Last cs n gone h))
      ]

IsLower-one : (c : ConditionNode) (n m : ℤ) → IsLower c n → IsLower c m → n ≡ m
IsLower-one (leaf l) n m (f, o, e) (g, p, k) = cc (e, k)
IsLower-one _ n m h k = absurd h

IsUpper-one : (c : ConditionNode) (n m : ℤ) → IsUpper c n → IsUpper c m → n ≡ m
IsUpper-one (leaf l) n m (f, o, e) (g, p, k) = cc (e, k)
IsUpper-one _ n m h k = absurd h

abbrev leaf_of : FilterField → FilterOperator → FilterValue → ConditionNode
leaf_of f op v = leaf (record { field = f; operator = op; value = v })

leaf_bound-IsLower :
    (f : FilterField) (op : FilterOperator) (v : FilterValue) (b : SizeBounds)
    → Sets IsLower (λ b. b.0) (leaf_of f op v) b (leaf_bound f op v b)
unfolding leaf_bound size_bound
leaf_bound-IsLower FilterField.size FilterOperator.greater_than (number n) (gt, lt) =
    inl (n, (refl, inl refl, refl), refl)
leaf_bound-IsLower FilterField.size FilterOperator.greater_than_or_equal (number n) (gt, lt) =
    inl (n, (refl, inr refl, refl), refl)
leaf_bound-IsLower FilterField.size _ (number n) b =
    inr (λ m (f, o, e). elim o [ inl e ↦ cc e | inr e ↦ cc e ], refl)
leaf_bound-IsLower _ op (number n) b = inr (λ m (f, o, e). cc f, refl)
leaf_bound-IsLower FilterField.size op _ b = inr (λ m (f, o, e). cc e, refl)
leaf_bound-IsLower _ op _ b = inr (λ m (f, o, e). cc f, refl)

leaf_bound-IsUpper :
    (f : FilterField) (op : FilterOperator) (v : FilterValue) (b : SizeBounds)
    → Sets IsUpper (λ b. b.1) (leaf_of f op v) b (leaf_bound f op v b)
unfolding leaf_bound size_bound
leaf_bound-IsUpper FilterField.size FilterOperator.less_than (number n) (gt, lt) =
    inl (n, (refl, inl refl, refl), refl)
leaf_bound-IsUpper FilterField.size FilterOperator.less_than_or_equal (number n) (gt, lt) =
    inl (n, (refl, inr refl, refl), refl)
leaf_bound-IsUpper FilterField.size _ (number n) b =
    inr (λ m (f, o, e). elim o [ inl e ↦ cc e | inr e ↦ cc e ], refl)
leaf_bound-IsUpper _ op (number n) b = inr (λ m (f, o, e). cc f, refl)
leaf_bound-IsUpper FilterField.size op _ b = inr (λ m (f, o, e). cc e, refl)
leaf_bound-IsUpper _ op _ b = inr (λ m (f, o, e). cc f, refl)

child_bound-IsLower :
    (c : ConditionNode) (b : SizeBounds) → Sets IsLower (λ b. b.0) c b (child_bound c b)
unfolding child_bound
child_bound-IsLower (leaf l) b = leaf_bound-IsLower l.field l.operator l.value b
child_bound-IsLower _ b = inr (λ m h. h, refl)

child_bound-IsUpper :
    (c : ConditionNode) (b : SizeBounds) → Sets IsUpper (λ b. b.1) c b (child_bound c b)
unfolding child_bound
child_bound-IsUpper (leaf l) b = leaf_bound-IsUpper l.field l.operator l.value b
child_bound-IsUpper _ b = inr (λ m h. h, refl)

-- In a conjunction that has both, the last lower bound is less than the last upper one.
abbrev pub IsConsistent : ConditionNode → Type 0
IsConsistent (and cs) = (n m : ℤ) → Last IsLower cs n → Last IsUpper cs m → m ≤ℤ n → ⊥
IsConsistent _ = Unit

bounds_clash_iff :
    (b : SizeBounds)
    → (bounds_clash b ≡ ok tt) ↔ ((n m : ℤ) → b.0 ≡ some n → b.1 ≡ some m → m ≤ℤ n → ⊥)
unfolding bounds_clash
bounds_clash_iff (some gt, some lt) = elim (Bool-cases (leb_ℤ lt gt)) [
  | inl clash ↦
      let below : lt ≤ℤ gt = ground arith in
      (λ h. ground arith, λ h. absurd (h gt lt refl refl below))
  | inr clear ↦ (
    λ h n m e f le.
        let g : n ≡ gt = cc e in
        let l : m ≡ lt = cc f in
        let below : lt ≤ℤ gt = subst (λ k. lt ≤ℤ k) g (subst (λ k. k ≤ℤ n) l le) in ground arith,
    λ h. ground arith,
  )
]
bounds_clash_iff (some gt, none) = (λ h n m e f le. cc f, λ h. refl)
bounds_clash_iff (none, lt) = (λ h n m e f le. cc e, λ h. refl)

pub pass5_contradictions_iff :
    (node : ConditionNode) → (pass5_contradictions node ≡ ok tt) ↔ IsConsistent node
unfolding pass5_contradictions
pass5_contradictions_iff (and cs) =
    let clash = bounds_clash_iff (size_bounds cs (none, none)) in
    let lower = λ (n : ℤ).
      size_bounds_iff IsLower (λ b. b.0) child_bound-IsLower IsLower-one cs (none, none) n refl in
    let upper = λ (n : ℤ).
      size_bounds_iff IsUpper (λ b. b.1) child_bound-IsUpper IsUpper-one cs (none, none) n refl in
    (
      λ h n m l u. clash.0 h n m ((lower n).1 l) ((upper m).1 u),
      λ h. clash.1 (λ n m e f. h n m ((lower n).0 e) ((upper m).0 f)),
    )
pass5_contradictions_iff _ = (λ h. tt, λ h. refl)
