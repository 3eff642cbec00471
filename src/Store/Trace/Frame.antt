-- ===== src/Store/Trace/Frame.antt =====
-- Which parts of the store a call can change: every other call leaves a part as it is.
use traffic_analysis.Base.{Bool, true, false, ◌≡◌, arith}
use traffic_analysis.Store.{MemoryStore}
use traffic_analysis.Store.Users.{create_user, update_user, delete_user}
use traffic_analysis.Store.Events.{create_event, update_event}
use traffic_analysis.Store.Messages.{add_message}
use traffic_analysis.Store.Work.{
  add_task, update_task, add_action, update_action, add_command, update_command, add_execution,
  add_summary,
}
use traffic_analysis.Store.Sync.{
  reserve_fingerprint, bind_event_map, save_cursor, save_pushed_event, add_audit_log,
}
use traffic_analysis.Store.Trace.{
  Op, step, creates_event, updates_event, reserves, binds, saves_pushed, adds_message, adds_task,
  updates_task, adds_action, updates_action, adds_command, updates_command, adds_execution,
  adds_summary, creates_user, updates_user, deletes_user,
}

-- `step` with every method open.
open_step : Op → MemoryStore → MemoryStore
unfolding step create_user update_user delete_user create_event update_event add_message add_task
    update_task add_action update_action add_command update_command add_execution add_summary
    reserve_fingerprint bind_event_map save_cursor save_pushed_event add_audit_log
open_step op s = step op s

abbrev pub on_events : Op → Bool
on_events (creates_event _ _ _) = true
on_events (updates_event _ _ _) = true
on_events _ = false

pub events-step : (op : Op) (s : MemoryStore) → on_events op ≡ false → (step op s).events ≡ s.events
unfolding open_step
events-step (creates_event _ _ _) s h = ground arith
events-step _ s h = ground arith

abbrev pub on_event_maps : Op → Bool
on_event_maps (reserves _ _) = true
on_event_maps (binds _ _ _ _) = true
on_event_maps _ = false

pub event_maps-step :
    (op : Op) (s : MemoryStore) → on_event_maps op ≡ false → (step op s).event_maps ≡ s.event_maps
unfolding open_step
event_maps-step (reserves _ _) s h = ground arith
event_maps-step _ s h = ground arith

abbrev pub on_pushed : Op → Bool
on_pushed (saves_pushed _ _) = true
on_pushed _ = false

pub pushed-step : (op : Op) (s : MemoryStore) → on_pushed op ≡ false → (step op s).pushed ≡ s.pushed
unfolding open_step
pushed-step (saves_pushed _ _) s h = ground arith
pushed-step _ s h = ground arith

abbrev pub on_messages : Op → Bool
on_messages (adds_message _ _ _) = true
on_messages _ = false

pub messages_by_event-step :
    (op : Op) (s : MemoryStore)
    → on_messages op ≡ false
    → (step op s).messages_by_event ≡ s.messages_by_event
unfolding open_step
messages_by_event-step (adds_message _ _ _) s h = ground arith
messages_by_event-step _ s h = ground arith

abbrev pub on_tasks : Op → Bool
on_tasks (adds_task _ _ _) = true
on_tasks (updates_task _ _ _ _) = true
on_tasks _ = false

pub tasks_by_event-step :
    (op : Op) (s : MemoryStore)
    → on_tasks op ≡ false
    → (step op s).tasks_by_event ≡ s.tasks_by_event
unfolding open_step
tasks_by_event-step (adds_task _ _ _) s h = ground arith
tasks_by_event-step _ s h = ground arith

abbrev pub on_actions : Op → Bool
on_actions (adds_action _ _ _) = true
on_actions (updates_action _ _ _ _) = true
on_actions _ = false

pub actions_by_event-step :
    (op : Op) (s : MemoryStore)
    → on_actions op ≡ false
    → (step op s).actions_by_event ≡ s.actions_by_event
unfolding open_step
actions_by_event-step (adds_action _ _ _) s h = ground arith
actions_by_event-step _ s h = ground arith

abbrev pub on_commands : Op → Bool
on_commands (adds_command _ _ _) = true
on_commands (updates_command _ _ _ _) = true
on_commands _ = false

pub commands_by_event-step :
    (op : Op) (s : MemoryStore)
    → on_commands op ≡ false
    → (step op s).commands_by_event ≡ s.commands_by_event
unfolding open_step
commands_by_event-step (adds_command _ _ _) s h = ground arith
commands_by_event-step _ s h = ground arith

abbrev pub on_executions : Op → Bool
on_executions (adds_execution _ _ _) = true
on_executions _ = false

pub exec_by_event-step :
    (op : Op) (s : MemoryStore)
    → on_executions op ≡ false
    → (step op s).exec_by_event ≡ s.exec_by_event
unfolding open_step
exec_by_event-step (adds_execution _ _ _) s h = ground arith
exec_by_event-step _ s h = ground arith

abbrev pub on_summaries : Op → Bool
on_summaries (adds_summary _ _) = true
on_summaries _ = false

pub summaries_by_event-step :
    (op : Op) (s : MemoryStore)
    → on_summaries op ≡ false
    → (step op s).summaries_by_event ≡ s.summaries_by_event
unfolding open_step
summaries_by_event-step (adds_summary _ _) s h = ground arith
summaries_by_event-step _ s h = ground arith

pub message_seq-step :
    (op : Op) (s : MemoryStore) → on_messages op ≡ false → (step op s).message_seq ≡ s.message_seq
unfolding open_step
message_seq-step (adds_message _ _ _) s h = ground arith
message_seq-step _ s h = ground arith

abbrev pub on_users : Op → Bool
on_users (creates_user _ _ _) = true
on_users (updates_user _ _ _ _) = true
on_users (deletes_user _) = true
on_users _ = false

pub users_by_id-step :
    (op : Op) (s : MemoryStore) → on_users op ≡ false → (step op s).users_by_id ≡ s.users_by_id
unfolding open_step
users_by_id-step (creates_user _ _ _) s h = ground arith
users_by_id-step _ s h = ground arith

pub users_by_username-step :
    (op : Op) (s : MemoryStore)
    → on_users op ≡ false
    → (step op s).users_by_username ≡ s.users_by_username
unfolding open_step
users_by_username-step (creates_user _ _ _) s h = ground arith
users_by_username-step _ s h = ground arith
