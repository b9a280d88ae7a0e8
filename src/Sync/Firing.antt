-- ===== src/Sync/Firing.antt =====
-- What the filters do to a message that has just been stored, in `apply_filter_actions` of
-- crates/nunciod/src/sync.rs, as long as the database answers.
use nuncio.Common.{
  ℕ, ◌+◌, String, ◌≡◌, refl, sym, ap, ◌∙◌, true, false, List, [], ◌∷◌, ◌++◌, map, length, Option,
  none, some, ok, length-append, arith,
}
use mathlib.Core.List.{map-append, append_assoc, append-nil}
use nuncio.Core.Model.{Email}
use nuncio.Filter.Ast.{RuleAction, FilterRule, to_nsql, mark_read, mark_unread}
use nuncio.Filter.Platform.{Platform}
use nuncio.Filter.Engine.{FilterEngine, evaluate}
use nuncio.Store.Host.{Host}
use nuncio.Store.Outbox.{FilterExecutionLog}
use nuncio.Store.Database.{Database, statement, outcome}
use nuncio.Store.Messages.{is_stored}
use nuncio.Store.Messages.Stored.{set_message_read-calm}
use nuncio.Store.Queue.{save_pending_mutation}
use nuncio.Store.Ledger.{save_filter_execution_log, next_log}
use nuncio.Sync.Actions.{
  remote_action_tag, apply_immediate, counted, enqueue_remote, apply_action, apply_actions,
  apply_matches, apply_filter_actions,
}

-- A database that will not fail.
abbrev pub calm : Database → Database
calm db = record db { outcomes = [] }

-- What a ledger entry says.
abbrev pub Entry : Type 0
Entry = String × String × String

abbrev pub entry : FilterExecutionLog → Entry
entry l = (l.rule_id, l.message_id, l.action_taken)

-- The entries that a message asks for: one for each action of each matched rule, in their order.
abbrev pub planned_actions : String → String → List RuleAction → List Entry
planned_actions rule_id message_id actions = map (λ a. (rule_id, message_id, to_nsql a)) actions

abbrev pub planned : String → List (FilterRule × List RuleAction) → List Entry
planned message_id [] = []
planned message_id ((rule, actions) ∷ ms) =
    planned_actions rule.id message_id actions ++ planned message_id ms

module _ (p : Platform) (host : Host) where
  immediate_calm :
      (id : String) (a : RuleAction) (db : Database)
      → is_stored id db ≡ true
      → (db' : Database) × (apply_immediate id a (calm db) ≡ (ok tt, calm db'))
        × (is_stored id db' ≡ true)
        × (db'.filter_execution_logs ≡ db.filter_execution_logs)
  unfolding apply_immediate
  immediate_calm id mark_read db h = set_message_read-calm id true db h
  immediate_calm id mark_unread db h = set_message_read-calm id false db h
  immediate_calm id _ db h = (db, refl, h, refl)

  enqueue_calm :
      (rule_id message_id : String) (t : Option (String × Option String)) (db : Database)
      → (db' : Database) × (enqueue_remote p host rule_id message_id t (calm db)
          ≡ (ok tt, calm db'))
        × (db'.messages ≡ db.messages)
        × (db'.filter_execution_logs ≡ db.filter_execution_logs)
  unfolding enqueue_remote save_pending_mutation statement outcome
  enqueue_calm rule_id message_id none db = (db, refl, refl, refl)
  enqueue_calm rule_id message_id (some (tag, target)) db = (
    (enqueue_remote p host rule_id message_id (some (tag, target)) (calm db)).1,
    refl,
    refl,
    refl,
  )

  log_calm :
      (rule_id message_id action_taken : String) (db : Database)
      → (db' : Database) × (l : FilterExecutionLog) × (save_filter_execution_log host rule_id
            message_id action_taken
            (calm db)
          ≡ (ok l, calm db'))
        × (db'.messages ≡ db.messages)
        × (map entry db'.filter_execution_logs
            ≡ map entry db.filter_execution_logs ++ (rule_id, message_id, action_taken) ∷ [])
  unfolding save_filter_execution_log next_log statement outcome
  log_calm rule_id message_id action_taken db = (
    (save_filter_execution_log host rule_id message_id action_taken (calm db)).1,
    _,
    refl,
    refl,
    map-append entry db.filter_execution_logs _,
  )

  -- One action: it succeeds and leaves its entry.
  action_calm :
      (rule_id message_id : String) (a : RuleAction) (db : Database)
      → is_stored message_id db ≡ true
      → (db' : Database) × (apply_action p host rule_id message_id a (calm db) ≡ (ok tt, calm db'))
        × (is_stored message_id db' ≡ true)
        × (map entry db'.filter_execution_logs
            ≡ map entry db.filter_execution_logs ++ (rule_id, message_id, to_nsql a) ∷ [])
  unfolding apply_action is_stored
  action_calm rule_id message_id a db h =
      let (db1, e1, s1, l1) = immediate_calm message_id a db h in
      let (db2, e2, m2, l2) = enqueue_calm rule_id message_id (remote_action_tag a) db1 in
      let (db3, l, e3, m3, l3) = log_calm rule_id message_id (to_nsql a) db2 in
      (db3, rw (e1, e2, e3), rw (m3, m2) s1, rw (l3, l2, l1))

  -- What a run of actions leaves.
  abbrev Fired : String → List Entry → (ℕ → Database → ℕ × Database) → Type 0
  Fired message_id entries run =
      (n : ℕ) (db : Database)
      → is_stored message_id db ≡ true
      → (db' : Database) × (run n (calm db) ≡ (n + length entries, calm db'))
        × (is_stored message_id db' ≡ true)
        × (map entry db'.filter_execution_logs ≡ map entry db.filter_execution_logs ++ entries)

  actions_calm :
      (rule_id message_id : String) (actions : List RuleAction)
      → Fired message_id
          (planned_actions rule_id message_id actions)
          (apply_actions p host rule_id message_id actions)
  unfolding apply_actions counted
  actions_calm rule_id message_id [] n db h =
      (db, ap (λ k. (k, calm db)) (omega arith), h, sym (append-nil _))
  actions_calm rule_id message_id (a ∷ rest) n db h =
      let (db1, e1, s1, l1) = action_calm rule_id message_id a db h in
      let (db2, e2, s2, l2) = actions_calm rule_id message_id rest (n + 1) db1 s1 in
      (db2, rw (e1, e2) (ap (λ k. (k, calm db2)) (omega arith)), s2, rw (l2, l1, append_assoc))

  matches_calm :
      (message_id : String) (ms : List (FilterRule × List RuleAction))
      → Fired message_id (planned message_id ms) (apply_matches p host message_id ms)
  unfolding apply_matches
  matches_calm message_id [] n db h =
      (db, ap (λ k. (k, calm db)) (omega arith), h, sym (append-nil _))
  matches_calm message_id ((rule, actions) ∷ ms) n db h =
      let (db1, e1, s1, l1) = actions_calm rule.id message_id actions n db h in
      let (db2, e2, s2, l2) =
        matches_calm message_id ms (n + length (planned_actions rule.id message_id actions)) db1
          s1 in
      (
        db2,
        rw (e1, e2)
            (ap (λ k. (k, calm db2))
              (omega (
                arith,
                length-append (planned_actions rule.id message_id actions) (planned message_id ms),
              ))),
        s2,
        rw (l2, l1, append_assoc),
      )

  -- As long as the database answers, the actions of every rule that the engine matches to a stored
  -- message all succeed: the count is their number, and the ledger gains exactly one entry for each,
  -- with its rule, the message and the text of the action, in the order of the rules.
  pub apply_filter_actions_lem :
      (filter_engine : FilterEngine p) (email : Email) (db : Database)
      → db.outcomes ≡ []
      → is_stored email.id db ≡ true
      → ((apply_filter_actions p host filter_engine email db).0
          ≡ length (planned email.id (evaluate p filter_engine email)))
        × (map entry ((apply_filter_actions p host filter_engine email db).1.filter_execution_logs)
            ≡ map entry db.filter_execution_logs
              ++ planned email.id (evaluate p filter_engine email))
  unfolding apply_filter_actions
  apply_filter_actions_lem filter_engine email db quiet h =
      let (db', e, s, l) = matches_calm email.id (evaluate p filter_engine email) 0 db h in
      let same : db ≡ calm db = ap (λ o. record db { outcomes = o }) quiet in
      let run : apply_matches p host email.id (evaluate p filter_engine email) 0 db ≡ _ =
        ap (λ x. apply_matches p host email.id (evaluate p filter_engine email) 0 x) same ∙ e in
      (ap (λ o. o.0) run ∙ omega arith, ap (λ o. map entry o.1.filter_execution_logs) run ∙ l)
