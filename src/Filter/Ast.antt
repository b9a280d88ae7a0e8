-- ===== src/Filter/Ast.antt =====
-- crates/nuncio-filter/src/ast.rs: the rules and their condition trees.
use nuncio.Common.{ℕ, suc, max, String, Bool, List}
use nuncio.Common.Int.{ℤ}
use nuncio.Common.Text.{◌⧺◌}

pub data FilterField : Type 0 where
  subject from to body : FilterField
  header : String → FilterField
  has_attachment size folder date account : FilterField

pub data FilterOperator : Type 0 where
  equals not_equals contains not_contains matches : FilterOperator
  greater_than less_than greater_than_or_equal less_than_or_equal : FilterOperator
  in_set not_in : FilterOperator

pub data FilterValue : Type 0 where
  string : String → FilterValue
  number : ℤ → FilterValue
  boolean : Bool → FilterValue
  list : List String → FilterValue

pub record ConditionLeaf : Type 0 where
  pub field : FilterField
  pub operator : FilterOperator
  pub value : FilterValue

-- `Vec<ConditionNode>` is the type `Conditions` of the block.
mutual
  pub data ConditionNode : Type 0 where
    leaf : ConditionLeaf → ConditionNode
    and : Conditions → ConditionNode
    or : Conditions → ConditionNode
    not : ConditionNode → ConditionNode

  pub data Conditions : Type 0 where
    nil : Conditions
    cons : ConditionNode → Conditions → Conditions

-- `children.iter().map(depth).max().unwrap_or(0)` is `deepest`.
unfoldable mutual
  pub depth : ConditionNode → ℕ
  depth (leaf l) = 1
  depth (and children) = suc (deepest children)
  depth (or children) = suc (deepest children)
  depth (not inner) = suc (depth inner)

  pub deepest : Conditions → ℕ
  deepest nil = 0
  deepest (cons c cs) = max (depth c) (deepest cs)

pub data RuleAction : Type 0 where
  move_to copy_to : String → RuleAction
  mark_read mark_unread flag unflag delete : RuleAction
  forward_to call_webhook : String → RuleAction

unfoldable pub to_nsql : RuleAction → String
to_nsql (move_to target) = "MOVE TO '" ⧺ target ⧺ "'"
to_nsql (copy_to target) = "COPY TO '" ⧺ target ⧺ "'"
to_nsql mark_read = "MARK READ"
to_nsql mark_unread = "MARK UNREAD"
to_nsql flag = "FLAG"
to_nsql unflag = "UNFLAG"
to_nsql delete = "DELETE"
to_nsql (forward_to email) = "FORWARD TO '" ⧺ email ⧺ "'"
to_nsql (call_webhook url) = "CALL WEBHOOK '" ⧺ url ⧺ "'"

pub record FilterRule : Type 0 where
  pub id : String
  pub name : String
  pub target_account : String
  pub priority : ℤ
  pub enabled : Bool
  pub nsql_text : String
  pub conditions : ConditionNode
  pub actions : List RuleAction
  pub created_at : ℤ
  pub updated_at : ℤ
