-- ===== src/Sync/Actions.antt =====
-- `apply_filter_actions` and `is_new_message` of crates/nunciod/src/sync.rs: the effects of the
-- filters on a message that has arrived.
use nuncio.Common.{
  ℕ, ◌+◌, String, Bool, true, false, List, [], ◌∷◌, Option, none, some, Result, ok, err,
}
use nuncio.Common.Action.{◌>>=◌, ◌>>◌, pure}
use nuncio.Core.Model.{Email}
use nuncio.Filter.Ast.{
  RuleAction, FilterRule, to_nsql, move_to, copy_to, mark_read, mark_unread, flag, unflag, delete,
  forward_to, call_webhook,
}
use nuncio.Filter.Platform.{Platform}
use nuncio.Filter.Engine.{FilterEngine, evaluate}
use nuncio.Store.Host.{Host}
use nuncio.Store.Outbox.{create_mutation}
use nuncio.Store.Database.{Database, Db, DatabaseError, is_not_found, select, modify}
use nuncio.Store.Messages.{get_message, set_message_read}
use nuncio.Store.Queue.{save_pending_mutation}
use nuncio.Store.Ledger.{save_filter_execution_log}

unfoldable pub remote_action_tag : RuleAction → Option (String × Option String)
remote_action_tag (move_to target) = some ("MOVE", some target)
remote_action_tag (copy_to target) = some ("COPY", some target)
remote_action_tag flag = some ("FLAG", none)
remote_action_tag unflag = some ("UNFLAG", none)
remote_action_tag delete = some ("DELETE", none)
remote_action_tag (forward_to address) = some ("FORWARD", some address)
remote_action_tag (call_webhook url) = some ("WEBHOOK", some url)
remote_action_tag mark_read = none
remote_action_tag mark_unread = none

-- The `match` that sets `immediate_ok`.
unfoldable pub apply_immediate : String → RuleAction → Db (Unit {0})
apply_immediate message_id mark_read = set_message_read message_id true
apply_immediate message_id mark_unread = set_message_read message_id false
apply_immediate message_id _ = pure tt

-- The count of a step: a failure is logged and does not count.
unfoldable pub counted : {A : Type 0} → Result DatabaseError A × Database → ℕ → ℕ × Database
counted (ok a, db) applied = (applied + 1, db)
counted (err e, db) applied = (applied, db)

module _ (p : Platform) (host : Host) where
  -- The `if let Some((tag, target))` that sets `action_ok`.
  unfoldable pub enqueue_remote : String → String → Option (String × Option String) → Db (Unit {0})
  enqueue_remote rule_id message_id none = pure tt
  enqueue_remote rule_id message_id (some (tag, target)) = do
    mutation ← select (λ db. create_mutation host db.ticks rule_id message_id tag target)
    modify (λ db. record db { ticks = db.ticks + 2 })
    save_pending_mutation mutation

  -- The body of the inner loop, where `continue` skips the rest.
  unfoldable pub apply_action : String → String → RuleAction → Db (Unit {0})
  apply_action rule_id message_id action = do
    apply_immediate message_id action
    enqueue_remote rule_id message_id (remote_action_tag action)
    log ← save_filter_execution_log host rule_id message_id (to_nsql action)
    pure tt

  unfoldable pub apply_actions : String → String → List RuleAction → ℕ → Database → ℕ × Database
  apply_actions rule_id message_id [] applied db = (applied, db)
  apply_actions rule_id message_id (action ∷ actions) applied db =
      let (applied, db) = counted (apply_action rule_id message_id action db) applied in
      apply_actions rule_id message_id actions applied db

  unfoldable pub apply_matches :
      String → List (FilterRule × List RuleAction) → ℕ → Database → ℕ × Database
  apply_matches message_id [] applied db = (applied, db)
  apply_matches message_id ((rule, actions) ∷ matches) applied db =
      let (applied, db) = apply_actions rule.id message_id actions applied db in
      apply_matches message_id matches applied db

  unfoldable pub apply_filter_actions : FilterEngine p → Email → Database → ℕ × Database
  apply_filter_actions filter_engine email db =
      apply_matches email.id (evaluate p filter_engine email) 0 db

  -- `Ok(_) => false`, not found `=> true`, any other error `=> false`
  unfoldable pub judge_new : Result DatabaseError Email → Bool
  judge_new (ok email) = false
  judge_new (err e) = is_not_found e

  unfoldable pub is_new_message : String → Database → Bool × Database
  is_new_message message_id db =
      let (answer, db) = get_message host message_id db in (judge_new answer, db)
