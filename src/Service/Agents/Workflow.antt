-- ===== src/Service/Agents/Workflow.antt =====
-- internal/service/agents.go: RunAgentWorkflow and restoreAgentWorkflowMessages.
use Prim.Native.String.{◌++◌ as append}
use traffic_analysis.Base.{
  ℕ, Bool, true, false, not, ◌||◌, String, Option, none, some, List, [], ◌∷◌, if◌then◌else◌,
}
use traffic_analysis.Value.{obj, end}
use traffic_analysis.Domain.{Event, Task, Action, Command, Execution, Summary}
use traffic_analysis.Domain.Roles.{
  role_captain, role_manager, role_operator, role_executor, role_expert,
}
use traffic_analysis.Store.{MemoryStore, Result, ok, err}
use traffic_analysis.Store.Events.{get_event}
use traffic_analysis.Store.Messages.{list_messages}
use traffic_analysis.Store.Work.{
  list_tasks, list_actions, list_commands, list_executions, list_summaries,
}
use traffic_analysis.Realtime.{broadcast_execution_update, broadcast_status}
use traffic_analysis.Service.{Outside}
use traffic_analysis.Service.Agents.{
  Crew, Stage, Response, add_agent_message, captain_response, manager_response, operator_response,
  executor_response, expert_response,
}
use traffic_analysis.Service.Agents.Plans.{build_task_plans, first_non_zero}
use traffic_analysis.Service.Agents.Steps.{
  make_task, make_action, make_command, make_execution, summarise,
}
use traffic_analysis.Service.Agents.Control.{
  has_agent_workflow_messages, and_then, collect, for_all, text_field, mark_event, mark_task,
  mark_action,
}

abbrev pub is_empty {ℓ} : {A : Type ℓ} → List A → Bool
is_empty [] = true
is_empty (a ∷ rest) = false

abbrev pub error_of {ℓ} : {A : Type ℓ} → Stage × Result A → Stage × Option String
error_of (st, ok a) = (st, none)
error_of (st, err e) = (st, some e)

-- summaries[len(summaries)-1], for a list that is not empty
abbrev pub last_of {ℓ} : {A : Type ℓ} → A → List A → A
last_of a [] = a
last_of a (b ∷ rest) = last_of b rest

unfoldable pub announce_execution : String → Execution → Stage → Stage
announce_execution event_id exec st = record st {
  publisher =
      broadcast_execution_update event_id
        (obj (
          text_field "event_id" event_id
            (text_field "execution_id" exec.execution_id (text_field "status" "completed" end))))
        st.publisher;
}

unfoldable pub announce_finished : String → Stage → Stage
announce_finished event_id st = record st {
  publisher =
      broadcast_status event_id
        (obj (text_field "event_id" event_id (text_field "status" "round_finished" end)))
        st.publisher;
}

module _ (o : Outside) (c : Crew) (event : Event) (event_id : String) (round_id : ℕ) where
  -- From the summary to the end.
  unfoldable pub finish_round : List Execution → Stage → Stage × Result Summary
  finish_round executions st =
      and_then
        (λ sm st'.
          (announce_finished event_id (mark_event o c event_id "round_finished" st'), ok sm))
        (summarise o c event event_id round_id executions st)

  -- What follows the executions.
  unfoldable pub close_round :
      List Task → List Action → List Execution → Stage → Stage × Result Summary
  close_round tasks actions executions st =
      let st1 = for_all (mark_action o c "completed") actions st in
      let st2 = for_all (mark_task o c (text_field "task_status" "completed" end)) tasks st1 in
      let st3 =
        add_agent_message o c event_id role_executor "command_result" round_id
          (executor_response event_id round_id executions) st2 in
      finish_round executions (for_all (announce_execution event_id) executions st3)

  unfoldable pub run_commands :
      List Task → List Action → List Command → Stage → Stage × Result Summary
  run_commands tasks actions commands st = and_then (close_round tasks actions) (
      collect (make_execution o c event event_id round_id) commands (
        add_agent_message o c event_id role_operator "command_created" round_id
          (operator_response event_id round_id commands) st))

  unfoldable pub run_actions : List Task → List Action → Stage → Stage × Result Summary
  run_actions tasks actions st = and_then (run_commands tasks actions) (
      collect (make_command o c event event_id round_id) actions (
        add_agent_message o c event_id role_manager "action_created" round_id
          (manager_response event_id round_id actions) st))

  unfoldable pub run_tasks : List Task → Stage → Stage × Result Summary
  run_tasks tasks st = and_then (run_actions tasks) (
      collect (make_action o c event event_id round_id) tasks (
        add_agent_message o c event_id role_captain "task_created" round_id
          (captain_response event round_id tasks) st))

  -- The workflow of an event that has no tasks and no executions.
  unfoldable pub start_round : Stage → Stage × Result Summary
  start_round st = and_then run_tasks (
      collect (make_task o c event event_id round_id) (build_task_plans event)
        (mark_event o c event_id "processing" st))

module _ (o : Outside) (c : Crew) (event : Event) (round_id : ℕ) where
  unfoldable pub says_if : Bool → String → String → Response → Stage → Stage
  says_if some_rows role message_type response st =
      if some_rows
      then add_agent_message o c event.event_id role message_type round_id response st
      else st

  unfoldable pub restore_summary : List Execution → List Summary → Stage → Stage × Option String
  restore_summary executions (sm ∷ rest) st = (
    add_agent_message o c event.event_id role_expert "event_summary" round_id
        (expert_response event round_id (last_of sm rest) executions) st,
    none,
  )
  restore_summary [] [] st = (st, none)
  restore_summary (e ∷ rest) [] st =
      error_of (summarise o c event event.event_id round_id (e ∷ rest) st)

  unfoldable pub restore_agent_workflow_messages :
      List Task
      → List Action
      → List Command
      → List Execution
      → List Summary
      → Stage
      → Stage × Option String
  unfolding restore_summary
  restore_agent_workflow_messages tasks actions commands executions summaries st =
      let id = event.event_id in
      let st1 =
        says_if (not (is_empty tasks)) role_captain "task_created"
          (captain_response event round_id tasks) st in
      let st2 =
        says_if (not (is_empty actions)) role_manager "action_created"
          (manager_response id round_id actions) st1 in
      let st3 =
        says_if (not (is_empty commands)) role_operator "command_created"
          (operator_response id round_id commands) st2 in
      let st4 =
        says_if (not (is_empty executions)) role_executor "command_result"
          (executor_response id round_id executions) st3 in
      restore_summary executions summaries st4

module _ (o : Outside) (c : Crew) where
  -- Whether the event has tasks or executions.
  abbrev pub has_worked : String → MemoryStore → Bool
  has_worked event_id s =
      not (is_empty (list_tasks event_id s)) || not (is_empty (list_executions event_id s))

  -- The workflow of an event that has: the messages are written where there are none.
  unfoldable pub restore_event : String → Event → Stage → Stage × Option String
  restore_event event_id event st =
      let s = st.world.store in
      if has_agent_workflow_messages (list_messages event_id s)
      then (st, none)
      else restore_agent_workflow_messages o c event (first_non_zero event.current_round 1)
          (list_tasks event_id s) (list_actions event_id s) (list_commands event_id s)
          (list_executions event_id s) (list_summaries event_id s) st

  unfoldable pub run_event : String → Event → Stage → Stage × Option String
  run_event event_id event st =
      if has_worked event_id st.world.store
      then restore_event event_id event st
      else error_of (start_round o c event event_id (first_non_zero event.current_round 1) st)

  unfoldable pub run_agent_workflow : String → Stage → Stage × Option String
  unfolding run_event
  run_agent_workflow event_id st = elim (get_event st.world.store event_id) [
    | none ↦ (st, some (append "event not found: " event_id))
    | some event ↦ run_event event_id event st
  ]
