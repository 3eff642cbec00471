-- ===== src/Store/Work.antt =====
-- internal/store/memory.go: the methods on tasks, actions, commands, executions and summaries.
pub mod Laws
use traffic_analysis.Base.{ℕ, Bool, String, Option, none, some, List, inc64, ◌==◌}
use traffic_analysis.Dict.{get}
use traffic_analysis.Value.{Fields}
use traffic_analysis.Domain.{Task, Action, Command, Execution, Summary}
use traffic_analysis.Store.{MemoryStore, Result, ok, err, default_text, default_number}
use traffic_analysis.Store.Patch.{string_patch, patched}
use traffic_analysis.Store.Rows.{rows_of, append_row, update_visit}

unfoldable pub added_task : ℕ → String → ℕ → Task → Task
added_task now fresh seq t = record t {
  id = seq;
  task_id = default_text t.task_id fresh;
  task_status = default_text t.task_status "pending";
  round_id = default_number t.round_id 1;
  created_at = default_number t.created_at now;
  updated_at = now;
}

unfoldable pub add_task : ℕ → String → Task → MemoryStore → MemoryStore × Result Task
add_task now fresh t s = elim (get s.events t.event_id) [
  | none ↦ (s, err "event not found")
  | some e ↦
      let t' = added_task now fresh (inc64 s.task_seq) t in
      (
        record s {
          task_seq = inc64 s.task_seq;
          tasks_by_event = append_row s.tasks_by_event t'.event_id t';
        },
        ok t',
      )
]

unfoldable pub list_tasks : String → MemoryStore → List Task
list_tasks event_id s = rows_of s.tasks_by_event event_id

unfoldable pub patched_task : ℕ → Fields → Task → Task
patched_task now patch t = record t {
  task_status = patched (string_patch patch "task_status") t.task_status;
  assigned_to = patched (string_patch patch "assigned_to") t.assigned_to;
  updated_at = now;
}

unfoldable pub update_task :
    ℕ → List String → String → Fields → MemoryStore → MemoryStore × Option Task
update_task now visit task_id patch s =
    let (rows, found) =
      update_visit (λ t. t.task_id == task_id) (patched_task now patch) visit s.tasks_by_event in
    (record s { tasks_by_event = rows }, found)

unfoldable pub added_action : ℕ → String → ℕ → Action → Action
added_action now fresh seq a = record a {
  id = seq;
  action_id = default_text a.action_id fresh;
  action_status = default_text a.action_status "pending";
  round_id = default_number a.round_id 1;
  created_at = default_number a.created_at now;
  updated_at = now;
}

unfoldable pub add_action : ℕ → String → Action → MemoryStore → MemoryStore × Result Action
add_action now fresh a s = elim (get s.events a.event_id) [
  | none ↦ (s, err "event not found")
  | some e ↦
      let a' = added_action now fresh (inc64 s.action_seq) a in
      (
        record s {
          action_seq = inc64 s.action_seq;
          actions_by_event = append_row s.actions_by_event a'.event_id a';
        },
        ok a',
      )
]

unfoldable pub patched_action : ℕ → Fields → Action → Action
patched_action now patch a = record a {
  action_status = patched (string_patch patch "action_status") a.action_status;
  action_result = patched (string_patch patch "action_result") a.action_result;
  updated_at = now;
}

unfoldable pub update_action :
    ℕ → List String → String → Fields → MemoryStore → MemoryStore × Option Action
update_action now visit action_id patch s =
    let (rows, found) =
      update_visit (λ a. a.action_id == action_id) (patched_action now patch) visit
        s.actions_by_event in
    (record s { actions_by_event = rows }, found)

unfoldable pub list_actions : String → MemoryStore → List Action
list_actions event_id s = rows_of s.actions_by_event event_id

unfoldable pub added_command : ℕ → String → ℕ → Command → Command
added_command now fresh seq c = record c {
  id = seq;
  command_id = default_text c.command_id fresh;
  command_status = default_text c.command_status "pending";
  round_id = default_number c.round_id 1;
  created_at = default_number c.created_at now;
  updated_at = now;
}

unfoldable pub add_command : ℕ → String → Command → MemoryStore → MemoryStore × Result Command
add_command now fresh c s = elim (get s.events c.event_id) [
  | none ↦ (s, err "event not found")
  | some e ↦
      let c' = added_command now fresh (inc64 s.command_seq) c in
      (
        record s {
          command_seq = inc64 s.command_seq;
          commands_by_event = append_row s.commands_by_event c'.event_id c';
        },
        ok c',
      )
]

unfoldable pub patched_command : ℕ → Fields → Command → Command
patched_command now patch c = record c {
  command_status = patched (string_patch patch "command_status") c.command_status;
  command_result = patched (string_patch patch "command_result") c.command_result;
  updated_at = now;
}

unfoldable pub update_command :
    ℕ → List String → String → Fields → MemoryStore → MemoryStore × Option Command
update_command now visit command_id patch s =
    let (rows, found) =
      update_visit (λ c. c.command_id == command_id) (patched_command now patch) visit
        s.commands_by_event in
    (record s { commands_by_event = rows }, found)

unfoldable pub list_commands : String → MemoryStore → List Command
list_commands event_id s = rows_of s.commands_by_event event_id

unfoldable pub added_execution : ℕ → String → ℕ → Execution → Execution
added_execution now fresh seq e = record e {
  id = seq;
  execution_id = default_text e.execution_id fresh;
  execution_status = default_text e.execution_status "pending";
  round_id = default_number e.round_id 1;
  created_at = default_number e.created_at now;
  updated_at = now;
}

unfoldable pub add_execution : ℕ → String → Execution → MemoryStore → MemoryStore × Result Execution
add_execution now fresh e s = elim (get s.events e.event_id) [
  | none ↦ (s, err "event not found")
  | some event ↦
      let e' = added_execution now fresh (inc64 s.exec_seq) e in
      (
        record s {
          exec_seq = inc64 s.exec_seq;
          exec_by_event = append_row s.exec_by_event e'.event_id e';
        },
        ok e',
      )
]

unfoldable pub list_executions : String → MemoryStore → List Execution
list_executions event_id s = rows_of s.exec_by_event event_id

unfoldable pub added_summary : ℕ → ℕ → Summary → Summary
added_summary now seq sm = record sm {
  id = seq;
  round_id = default_number sm.round_id 1;
  created_at = default_number sm.created_at now;
  updated_at = now;
}

unfoldable pub add_summary : ℕ → Summary → MemoryStore → MemoryStore × Result Summary
add_summary now sm s = elim (get s.events sm.event_id) [
  | none ↦ (s, err "event not found")
  | some e ↦
      let sm' = added_summary now (inc64 s.summary_seq) sm in
      (
        record s {
          summary_seq = inc64 s.summary_seq;
          summaries_by_event = append_row s.summaries_by_event sm'.event_id sm';
        },
        ok sm',
      )
]

unfoldable pub list_summaries : String → MemoryStore → List Summary
list_summaries event_id s = rows_of s.summaries_by_event event_id
