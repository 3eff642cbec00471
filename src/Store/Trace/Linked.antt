-- ===== src/Store/Trace/Linked.antt =====
-- Referential integrity: in every store that the calls can build, a row belongs to an event that
-- is there, and is kept under that event's id.
pub mod Calls
use mathlib.Core.Path.{subst}
use traffic_analysis.Base.{
  ℕ, Bool, true, false, String, Option, none, some, List, [], ◌∷◌, ◌≡◌, ◌∙◌, refl, arith, ap, sym,
  inl, inr, Option-cases, inc64,
}
use traffic_analysis.Dict.{get, put, is_some}
use traffic_analysis.Value.{Fields}
use traffic_analysis.Domain.{Message, Task, Action, Command, Execution, Summary}
use traffic_analysis.Domain.Roles.{normalize_message}
use traffic_analysis.Store.{MemoryStore, new_memory_store, err}
use traffic_analysis.Store.Rows.{append_row}
use traffic_analysis.Store.Rows.Linked.{
  IsLinked, append_row-IsLinked, update_visit-IsLinked, IsLinked-grow,
}
use traffic_analysis.Store.Messages.{added_message, add_message}
use traffic_analysis.Store.Work.{
  added_task, add_task, patched_task, update_task, added_action, add_action, patched_action,
  update_action, added_command, add_command, patched_command, update_command, added_execution,
  add_execution, added_summary, add_summary,
}
use traffic_analysis.Store.Trace.{
  Op, step, run, adds_message, adds_task, updates_task, adds_action, updates_action, adds_command,
  updates_command, adds_execution, adds_summary,
}
use traffic_analysis.Store.Trace.Frame.{
  events-step, messages_by_event-step, tasks_by_event-step, actions_by_event-step,
  commands_by_event-step, exec_by_event-step, summaries_by_event-step,
}
use traffic_analysis.Store.Trace.History.{step-Keeps}
use traffic_analysis.Store.Trace.Linked.Calls.{
  add_message-IsLinked, add_task-IsLinked, update_task-IsLinked, add_action-IsLinked,
  update_action-IsLinked, add_command-IsLinked, update_command-IsLinked, add_execution-IsLinked,
  add_summary-IsLinked,
}

-- An event that is there stays there.
events-grow :
    (op : Op) (s : MemoryStore) (k : String)
    → is_some (get s.events k) ≡ true
    → is_some (get (step op s).events k) ≡ true
events-grow op s k h = elim (Option-cases (get s.events k)) [
  | inl e ↦ cc (ap is_some e)
  | inr (f, e) ↦ let (f', at_k, _) = step-Keeps op s k f e in ap is_some at_k
]

-- Every list of rows of the store is linked to the events.
pub record IsLinkedStore (s : MemoryStore) : Type 0 where
  pub messages : IsLinked (λ (r : Message). r.event_id) s.events s.messages_by_event
  pub tasks : IsLinked (λ (r : Task). r.event_id) s.events s.tasks_by_event
  pub actions : IsLinked (λ (r : Action). r.event_id) s.events s.actions_by_event
  pub commands : IsLinked (λ (r : Command). r.event_id) s.events s.commands_by_event
  pub executions : IsLinked (λ (r : Execution). r.event_id) s.events s.exec_by_event
  pub summaries : IsLinked (λ (r : Summary). r.event_id) s.events s.summaries_by_event

module _ (s : MemoryStore) where
  messages-IsLinked :
      (op : Op)
      → IsLinked (λ (r : Message). r.event_id) s.events s.messages_by_event
      → IsLinked (λ (r : Message). r.event_id) s.events (step op s).messages_by_event
  unfolding step
  messages-IsLinked (adds_message now fresh r) v = add_message-IsLinked s now fresh r v
  messages-IsLinked op v = rw (messages_by_event-step op s refl) v

  tasks-IsLinked :
      (op : Op)
      → IsLinked (λ (r : Task). r.event_id) s.events s.tasks_by_event
      → IsLinked (λ (r : Task). r.event_id) s.events (step op s).tasks_by_event
  unfolding step
  tasks-IsLinked (adds_task now fresh r) v = add_task-IsLinked s now fresh r v
  tasks-IsLinked (updates_task now visit id patch) v = update_task-IsLinked s now visit id patch v
  tasks-IsLinked op v = rw (tasks_by_event-step op s refl) v

  actions-IsLinked :
      (op : Op)
      → IsLinked (λ (r : Action). r.event_id) s.events s.actions_by_event
      → IsLinked (λ (r : Action). r.event_id) s.events (step op s).actions_by_event
  unfolding step
  actions-IsLinked (adds_action now fresh r) v = add_action-IsLinked s now fresh r v
  actions-IsLinked (updates_action now visit id patch) v =
      update_action-IsLinked s now visit id patch v
  actions-IsLinked op v = rw (actions_by_event-step op s refl) v

  commands-IsLinked :
      (op : Op)
      → IsLinked (λ (r : Command). r.event_id) s.events s.commands_by_event
      → IsLinked (λ (r : Command). r.event_id) s.events (step op s).commands_by_event
  unfolding step
  commands-IsLinked (adds_command now fresh r) v = add_command-IsLinked s now fresh r v
  commands-IsLinked (updates_command now visit id patch) v =
      update_command-IsLinked s now visit id patch v
  commands-IsLinked op v = rw (commands_by_event-step op s refl) v

  executions-IsLinked :
      (op : Op)
      → IsLinked (λ (r : Execution). r.event_id) s.events s.exec_by_event
      → IsLinked (λ (r : Execution). r.event_id) s.events (step op s).exec_by_event
  unfolding step
  executions-IsLinked (adds_execution now fresh r) v = add_execution-IsLinked s now fresh r v
  executions-IsLinked op v = rw (exec_by_event-step op s refl) v

  summaries-IsLinked :
      (op : Op)
      → IsLinked (λ (r : Summary). r.event_id) s.events s.summaries_by_event
      → IsLinked (λ (r : Summary). r.event_id) s.events (step op s).summaries_by_event
  unfolding step
  summaries-IsLinked (adds_summary now r) v = add_summary-IsLinked s now r v
  summaries-IsLinked op v = rw (summaries_by_event-step op s refl) v

step-IsLinkedStore : (op : Op) (s : MemoryStore) → IsLinkedStore s → IsLinkedStore (step op s)
step-IsLinkedStore op s v = record {
  messages = IsLinked-grow _ (events-grow op s) (messages-IsLinked s op v.messages);
  tasks = IsLinked-grow _ (events-grow op s) (tasks-IsLinked s op v.tasks);
  actions = IsLinked-grow _ (events-grow op s) (actions-IsLinked s op v.actions);
  commands = IsLinked-grow _ (events-grow op s) (commands-IsLinked s op v.commands);
  executions = IsLinked-grow _ (events-grow op s) (executions-IsLinked s op v.executions);
  summaries = IsLinked-grow _ (events-grow op s) (summaries-IsLinked s op v.summaries);
}

pub run-IsLinkedStore :
    (ops : List Op) (s : MemoryStore) → IsLinkedStore s → IsLinkedStore (run ops s)
unfolding run
run-IsLinkedStore [] s v = v
run-IsLinkedStore (op ∷ ops) s v = run-IsLinkedStore ops (step op s) (step-IsLinkedStore op s v)

IsLinked-nil :
    {A : Type 0} (event_id : A → String) (s : MemoryStore) → IsLinked event_id s.events []
unfolding get
IsLinked-nil event_id s = record { known = λ k rows h. cc; own = λ k rows h. cc }

new_memory_store-IsLinkedStore : (now : ℕ) → IsLinkedStore (new_memory_store now)
unfolding new_memory_store
new_memory_store-IsLinkedStore now = record {
  messages = IsLinked-nil _ (new_memory_store now);
  tasks = IsLinked-nil _ (new_memory_store now);
  actions = IsLinked-nil _ (new_memory_store now);
  commands = IsLinked-nil _ (new_memory_store now);
  executions = IsLinked-nil _ (new_memory_store now);
  summaries = IsLinked-nil _ (new_memory_store now);
}

-- Whatever calls a new store has had, each of its messages, tasks, actions, commands, executions
-- and summaries is kept under the id of its own event, and that event is in the store.
pub run-new_memory_store-IsLinkedStore :
    (now : ℕ) (ops : List Op) → IsLinkedStore (run ops (new_memory_store now))
run-new_memory_store-IsLinkedStore now ops =
    run-IsLinkedStore ops (new_memory_store now) (new_memory_store-IsLinkedStore now)
