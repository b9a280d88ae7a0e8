-- ===== src/Filter/Validator/Checks/Walks.antt =====
-- The walks of crates/nuncio-filter/src/validator.rs: a walk succeeds exactly when its check does at
-- every place.
use nuncio.Common.{◌≡◌, refl, ◌↔◌, Bool, true, false, List, [], ◌∷◌, ok, All, >>_iff}
use nuncio.Filter.Ast.{
  ConditionLeaf, ConditionNode, Conditions, leaf, and, or, nil, cons, RuleAction,
}
use nuncio.Filter.Validator.Checks.{
  ValidationError, Check, reject, each_leaf, each_child, each_action,
}

-- `P` at every leaf of a condition tree.
unfoldable mutual
  pub AllLeaves : (ConditionLeaf → Type 0) → ConditionNode → Type 0
  AllLeaves P (leaf l) = P l
  AllLeaves P (and children) = AllChildren P children
  AllLeaves P (or children) = AllChildren P children
  AllLeaves P (ConditionNode.not inner) = AllLeaves P inner

  pub AllChildren : (ConditionLeaf → Type 0) → Conditions → Type 0
  AllChildren P nil = Unit
  AllChildren P (cons c cs) = AllLeaves P c × AllChildren P cs

pub reject_iff : (b : Bool) (e : ValidationError) → (reject b e ≡ ok tt) ↔ (b ≡ false)
reject_iff true e = (λ h. cc h, λ h. cc h)
reject_iff false e = (λ h. refl, λ h. refl)

module _ (check : ConditionLeaf → Check) (P : ConditionLeaf → Type 0)
    (decides : (l : ConditionLeaf) → (check l ≡ ok tt) ↔ P l) where
  mutual
    unfolding each_leaf AllLeaves

    each_leaf→AllLeaves : (node : ConditionNode) → each_leaf check node ≡ ok tt → AllLeaves P node
    each_leaf→AllLeaves (leaf l) h = (decides l).0 h
    each_leaf→AllLeaves (and cs) h = each_child→AllChildren cs h
    each_leaf→AllLeaves (or cs) h = each_child→AllChildren cs h
    each_leaf→AllLeaves (ConditionNode.not inner) h = each_leaf→AllLeaves inner h

    each_child→AllChildren : (cs : Conditions) → each_child check cs ≡ ok tt → AllChildren P cs
    each_child→AllChildren nil h = tt
    each_child→AllChildren (cons c cs) h =
        let (here, rest) = (>>_iff (each_leaf check c) (each_child check cs) tt).0 h in
        (each_leaf→AllLeaves c here, each_child→AllChildren cs rest)

  mutual
    unfolding each_leaf AllLeaves

    AllLeaves→each_leaf : (node : ConditionNode) → AllLeaves P node → each_leaf check node ≡ ok tt
    AllLeaves→each_leaf (leaf l) h = (decides l).1 h
    AllLeaves→each_leaf (and cs) h = AllChildren→each_child cs h
    AllLeaves→each_leaf (or cs) h = AllChildren→each_child cs h
    AllLeaves→each_leaf (ConditionNode.not inner) h = AllLeaves→each_leaf inner h

    AllChildren→each_child : (cs : Conditions) → AllChildren P cs → each_child check cs ≡ ok tt
    AllChildren→each_child nil h = refl
    AllChildren→each_child (cons c cs) (q, h) =
        (>>_iff (each_leaf check c) (each_child check cs) tt).1
          (AllLeaves→each_leaf c q, AllChildren→each_child cs h)

  pub each_leaf_iff : (node : ConditionNode) → (each_leaf check node ≡ ok tt) ↔ AllLeaves P node
  each_leaf_iff node = (each_leaf→AllLeaves node, AllLeaves→each_leaf node)

module _ (check : RuleAction → Check) (P : RuleAction → Type 0)
    (decides : (a : RuleAction) → (check a ≡ ok tt) ↔ P a) where
  each_action→All : (actions : List RuleAction) → each_action check actions ≡ ok tt → All P actions
  unfolding each_action
  each_action→All [] h = tt
  each_action→All (a ∷ rest) h =
      let (here, later) = (>>_iff (check a) (each_action check rest) tt).0 h in
      ((decides a).0 here, each_action→All rest later)

  All→each_action : (actions : List RuleAction) → All P actions → each_action check actions ≡ ok tt
  unfolding each_action
  All→each_action [] h = refl
  All→each_action (a ∷ rest) (q, h) =
      (>>_iff (check a) (each_action check rest) tt).1 ((decides a).1 q, All→each_action rest h)

  pub each_action_iff :
      (actions : List RuleAction) → (each_action check actions ≡ ok tt) ↔ All P actions
  each_action_iff actions = (each_action→All actions, All→each_action actions)
