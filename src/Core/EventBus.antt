-- ===== src/Core/EventBus.antt =====
-- crates/nuncio-core/src/lib.rs: the event bus. Its channels are tokio's: the watched state is a
-- field, and `published` lists the events that were handed to the broadcast channel, oldest first.
pub mod Lifecycle
use nuncio.Common.{
  ℕ, zero, suc, ◌+◌, ◌-◌, ◌^◌, String, Bool, true, false, List, [], ◌∷◌, ◌++◌, Option, none, some,
  Result, ok, err, if◌then◌else◌, ltb,
}

pub data EventBusError : Type 0 where
  command_channel_closed : EventBusError

pub data CoreCommand : Type 0 where
  sync_all : CoreCommand
  sync_account : (account_id : String) → CoreCommand
  mark_read : (message_id : String) (read : Bool) → CoreCommand
  report_error : (message : String) → CoreCommand
  reload_filters shutdown : CoreCommand

pub data CoreEvent : Type 0 where
  sync_started sync_completed : (account_id : Option String) → CoreEvent
  message_flags_changed : (message_id : String) (read : Bool) → CoreEvent
  filter_executed : (rule_id message_id action_taken : String) → CoreEvent
  sync_progress : (account_id : Option String) (folder_id : String) (fetched total : ℕ) → CoreEvent
  batch_filter_progress : (processed total matched : ℕ) → CoreEvent
  database_recovered : (backup_path : String) (salvaged : ℕ) (resync_triggered : Bool) → CoreEvent
  update_available : (version release_notes : String) → CoreEvent
  error : (message : String) → CoreEvent
  shutting_down : CoreEvent

pub data EngineStatus : Type 0 where
  idle syncing shutting_down : EngineStatus

pub record AppState : Type 0 where
  pub status : EngineStatus
  pub accounts_loaded : ℕ
  pub unread_count : ℕ
  pub last_error : Option String

-- `subscribers` is the number of live event receivers; `queue` is the command channel, whose receiver
-- is in the bus (`command_rx`) until it is taken, and may be dropped by its owner (`closed`).
pub record EventBus : Type 0 where
  pub state : AppState
  pub published : List CoreEvent
  pub subscribers : ℕ
  pub queue : List CoreCommand
  pub closed : Bool
  pub command_rx : Bool
  pub receiver_taken : Bool

abbrev pub with_initial_state : AppState → EventBus
with_initial_state initial = record {
  state = initial;
  published = [];
  subscribers = 0;
  queue = [];
  closed = false;
  command_rx = true;
  receiver_taken = false;
}

-- `usize::MAX` on a 64-bit host.
abbrev pub usize_max : ℕ
usize_max = 2 ^ 64 - 1

-- The bus after the call, and whether the caller got the receiver.
unfoldable pub take_command_receiver : EventBus → EventBus × Bool
take_command_receiver bus =
    if bus.receiver_taken
    then (bus, false)
    else (record bus { receiver_taken = true; command_rx = false }, bus.command_rx)

-- A full channel makes the sender wait; the model has the send that goes through.
unfoldable pub send_command : EventBus → CoreCommand → EventBus × Result EventBusError (Unit {0})
send_command bus cmd =
    if bus.closed
    then (bus, err command_channel_closed)
    else (record bus { queue = bus.queue ++ cmd ∷ [] }, ok tt)

unfoldable pub update_state : EventBus → (AppState → AppState) → EventBus
update_state bus mutator = record bus { state = mutator bus.state }

-- The broadcast channel takes the event, and tells how many receivers will see it.
unfoldable pub publish_event : EventBus → CoreEvent → EventBus × ℕ
publish_event bus event = (record bus { published = bus.published ++ event ∷ [] }, bus.subscribers)

-- `saturating_sub(1)` and `saturating_add(1)`.
count_unread : Bool → ℕ → ℕ
count_unread true n = n - 1
count_unread false n = if ltb n usize_max then n + 1 else n

unfoldable pub process_command : EventBus → CoreCommand → EventBus
unfolding update_state publish_event count_unread
process_command bus sync_all =
    (publish_event (update_state bus (λ s. record s { status = syncing })) (sync_started none)).0
process_command bus (sync_account account_id) =
    (publish_event (update_state bus (λ s. record s { status = syncing }))
      (sync_started (some account_id))).0
process_command bus (mark_read message_id read) =
    (publish_event
      (update_state bus (λ s. record s { unread_count = count_unread read s.unread_count }))
      (message_flags_changed message_id read)).0
process_command bus (report_error message) =
    (publish_event (update_state bus (λ s. record s { last_error = some message }))
      (error message)).0
process_command bus reload_filters = bus
process_command bus shutdown =
    (publish_event (update_state bus (λ s. record s { status = EngineStatus.shutting_down }))
      CoreEvent.shutting_down).0

unfoldable pub complete_sync : EventBus → Option String → EventBus × ℕ
unfolding update_state publish_event
complete_sync bus account_id =
    publish_event (update_state bus (λ s. record s { status = idle })) (sync_completed account_id)
