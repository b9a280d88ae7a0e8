-- ===== src/Sync/Routing.antt =====
-- What a property of the database needs in order to hold after the filters fired on a message, and
-- after the message was persisted, in crates/nunciod/src/sync.rs.
use mathlib.Core.Path.{subst}
use nuncio.Common.{
  ℕ, String, ◌≡◌, refl, sym, Bool, true, false, List, [], ◌∷◌, Option, ok, err, Result,
}
use nuncio.Common.Action.{Keeps, >>=-Keeps}
use nuncio.Core.Model.{Email}
use nuncio.Filter.Ast.{RuleAction, FilterRule, to_nsql, mark_read, mark_unread}
use nuncio.Filter.Platform.{Platform}
use nuncio.Filter.Engine.{FilterEngine}
use nuncio.Store.Host.{Host}
use nuncio.Store.Database.{Database, DatabaseError}
use nuncio.Store.Messages.{save_email, get_message, set_message_read}
use nuncio.Store.Ledger.{save_filter_execution_log}
use nuncio.Sync.Backend.{MailBackend}
use nuncio.Sync.Actions.{
  remote_action_tag, apply_immediate, counted, enqueue_remote, apply_action, apply_actions,
  apply_matches, apply_filter_actions, is_new_message,
}
use nuncio.Sync.Fetch.{on_db, fire_if_new, persist_one}

module _ (p : Platform) (host : Host) (P : Database → Type 0) (Q : String → Type 0)
    (flagged : (id : String) (read : Bool) → Q id → Keeps P (set_message_read id read))
    (queued : (rule_id message_id : String) (t : Option (String × Option String))
      → Keeps P (enqueue_remote p host rule_id message_id t))
    (logged : (rule_id message_id action_taken : String)
      → Keeps P (save_filter_execution_log host rule_id message_id action_taken)) where
  apply_immediate-Keeps : (id : String) (a : RuleAction) → Q id → Keeps P (apply_immediate id a)
  unfolding apply_immediate
  apply_immediate-Keeps id mark_read q = flagged id true q
  apply_immediate-Keeps id mark_unread q = flagged id false q
  apply_immediate-Keeps id _ q = λ db h. h

  apply_action-Keeps :
      (rule_id message_id : String) (a : RuleAction)
      → Q message_id
      → Keeps P (apply_action p host rule_id message_id a)
  unfolding apply_action
  apply_action-Keeps rule_id message_id a q =
      >>=-Keeps P (apply_immediate message_id a) _ (apply_immediate-Keeps message_id a q) (λ u.
        >>=-Keeps P (enqueue_remote p host rule_id message_id (remote_action_tag a)) _
          (queued rule_id message_id (remote_action_tag a))
          (λ v.
            >>=-Keeps P (save_filter_execution_log host rule_id message_id (to_nsql a)) _
              (logged rule_id message_id (to_nsql a)) (λ l db h. h)))

  -- Counting does not touch the database.
  counted-db : {A : Type 0} (o : Result DatabaseError A × Database) (n : ℕ) → (counted o n).1 ≡ o.1
  unfolding counted
  counted-db (ok a, db) n = refl
  counted-db (err e, db) n = refl

  apply_actions-Keeps :
      (rule_id message_id : String) (actions : List RuleAction) (n : ℕ) (db : Database)
      → Q message_id
      → P db
      → P ((apply_actions p host rule_id message_id actions n db).1)
  unfolding apply_actions
  apply_actions-Keeps rule_id message_id [] n db q h = h
  apply_actions-Keeps rule_id message_id (a ∷ rest) n db q h =
      apply_actions-Keeps rule_id message_id rest _ _ q (
        subst P (sym (counted-db (apply_action p host rule_id message_id a db) n))
          (apply_action-Keeps rule_id message_id a q db h))

  apply_matches-Keeps :
      (message_id : String) (matches : List (FilterRule × List RuleAction)) (n : ℕ) (db : Database)
      → Q message_id
      → P db
      → P ((apply_matches p host message_id matches n db).1)
  unfolding apply_matches
  apply_matches-Keeps message_id [] n db q h = h
  apply_matches-Keeps message_id ((rule, actions) ∷ ms) n db q h =
      apply_matches-Keeps message_id ms _ _ q
        (apply_actions-Keeps rule.id message_id actions n db q h)

  pub apply_filter_actions-Keeps :
      (filter_engine : FilterEngine p) (e : Email) (db : Database)
      → Q e.id
      → P db
      → P ((apply_filter_actions p host filter_engine e db).1)
  unfolding apply_filter_actions
  apply_filter_actions-Keeps filter_engine e db q h = apply_matches-Keeps e.id _ 0 db q h

  module _ (backend : MailBackend) (filter_engine : FilterEngine p) where
    pub fire_if_new-Keeps :
        (b : Bool) (e : Email)
        → Q e.id
        → Keeps (λ d. P d.db) (fire_if_new p host backend filter_engine b e)
    unfolding fire_if_new
    fire_if_new-Keeps true e q d h = apply_filter_actions-Keeps filter_engine e d.db q h
    fire_if_new-Keeps false e q d h = h

    pub persist_one-Keeps :
        ((e : Email) → Keeps P (save_email host e))
        → ((id : String) → Keeps P (get_message host id))
        → (e : Email) → Q e.id
        → Keeps (λ d. P d.db) (persist_one p host backend filter_engine e)
    unfolding persist_one is_new_message
    persist_one-Keeps saved looked_up e q d h =
        >>=-Keeps (λ d. P d.db) (on_db (save_email host e)) _ (λ d h. saved e d.db h)
          (λ u. fire_if_new-Keeps _ e q) (record d { db = (get_message host e.id d.db).1 })
          (looked_up e.id d.db h)
