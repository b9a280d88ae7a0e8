-- ===== src/Core/EventBus/Lifecycle.antt =====
-- Runs of the event bus of crates/nuncio-core/src/lib.rs over any sequence of commands.
use nuncio.Common.{◌≤◌, ◌≡◌, refl, String, List, [], ◌∷◌, ◌++◌, Option, none, some, arith}
use mathlib.Core.List.{append-nil, append_assoc}
use nuncio.Core.EventBus.{
  CoreCommand, sync_all, sync_account, mark_read, report_error, reload_filters, shutdown, CoreEvent,
  sync_started, message_flags_changed, error, EngineStatus, idle, syncing, EventBus,
  process_command, complete_sync, usize_max,
}

-- The commands of a run, handled in turn.
unfoldable pub process_all : EventBus → List CoreCommand → EventBus
process_all bus [] = bus
process_all bus (c ∷ cs) = process_all (process_command bus c) cs

-- The event that announces a command; a reload announces nothing.
abbrev pub announcement : CoreCommand → List CoreEvent
announcement sync_all = sync_started none ∷ []
announcement (sync_account id) = sync_started (some id) ∷ []
announcement (mark_read id read) = message_flags_changed id read ∷ []
announcement (report_error message) = error message ∷ []
announcement reload_filters = []
announcement shutdown = CoreEvent.shutting_down ∷ []

abbrev pub announcements : List CoreCommand → List CoreEvent
announcements [] = []
announcements (c ∷ cs) = announcement c ++ announcements cs

-- The status that the last of the commands which set one asks for.
abbrev pub status_after : EngineStatus → List CoreCommand → EngineStatus
status_after s [] = s
status_after s (sync_all ∷ cs) = status_after syncing cs
status_after s (sync_account id ∷ cs) = status_after syncing cs
status_after s (shutdown ∷ cs) = status_after EngineStatus.shutting_down cs
status_after s (c ∷ cs) = status_after s cs

process_command-published :
    (bus : EventBus) (c : CoreCommand)
    → (process_command bus c).published ≡ bus.published ++ announcement c
unfolding process_command
process_command-published bus reload_filters = rw append-nil
process_command-published bus _ = refl

process_all-published :
    (bus : EventBus) (cs : List CoreCommand)
    → (process_all bus cs).published ≡ bus.published ++ announcements cs
unfolding process_all
process_all-published bus [] = rw append-nil
process_all-published bus (c ∷ cs) = simp (
  process_all-published (process_command bus c) cs,
  process_command-published bus c,
  append_assoc,
)

process_all-status :
    (bus : EventBus) (cs : List CoreCommand)
    → (process_all bus cs).state.status ≡ status_after bus.state.status cs
unfolding process_all process_command
process_all-status bus [] = refl
process_all-status bus (sync_all ∷ cs) = process_all-status (process_command bus sync_all) cs
process_all-status bus (c ∷ cs) = process_all-status (process_command bus c) cs

process_all-unread :
    (bus : EventBus) (cs : List CoreCommand)
    → bus.state.unread_count ≤ usize_max
    → (process_all bus cs).state.unread_count ≤ usize_max
unfolding process_all process_command
process_all-unread bus [] h = h
process_all-unread bus (c ∷ cs) h = process_all-unread (process_command bus c) cs (ground arith)

-- After any commands the bus has published the announcement of each, in their order and after what
-- it had published before, has the status that the last status-setting command asks for, and an
-- unread count that still fits its machine word.
pub process_all_lem :
    (bus : EventBus) (cs : List CoreCommand)
    → bus.state.unread_count ≤ usize_max
    → ((process_all bus cs).published ≡ bus.published ++ announcements cs)
      × ((process_all bus cs).state.status ≡ status_after bus.state.status cs)
      × ((process_all bus cs).state.unread_count ≤ usize_max)
process_all_lem bus cs h =
    (process_all-published bus cs, process_all-status bus cs, process_all-unread bus cs h)

-- A sync that completes while the engine shuts down puts it back to idle, whatever the state was.
pub complete_sync_after_shutdown :
    (bus : EventBus) (id : Option String)
    → (complete_sync (process_command bus shutdown) id).0.state.status ≡ idle
unfolding process_command complete_sync
complete_sync_after_shutdown bus id = refl
