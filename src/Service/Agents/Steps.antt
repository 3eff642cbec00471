-- ===== src/Service/Agents/Steps.antt =====
-- internal/service/agents.go: the steps of RunAgentWorkflow. A step that adds a row takes three
-- readings: two for the times in its contents, and one for the store.
use Prim.Native.String.{◌++◌ as append}
use traffic_analysis.Base.{ℕ, ◌+◌, String, List, [], ◌∷◌}
use traffic_analysis.Value.{obj, end, first_non_empty}
use traffic_analysis.Domain.{Event, Task, Action, Command, Execution, Summary}
use traffic_analysis.Domain.Roles.{role_manager, role_operator, role_executor, role_expert}
use traffic_analysis.Store.{Result, ok}
use traffic_analysis.Store.Work.{add_task, add_action, add_command, add_execution, add_summary}
use traffic_analysis.Service.{Outside, standard_content}
use traffic_analysis.Service.Agents.{Crew, Stage, add_agent_message, expert_response}
use traffic_analysis.Service.Agents.Plans.{
  TaskPlan, severity_priority, action_name_for_task, command_spec_for_action, execution_result,
  event_summary,
}
use traffic_analysis.Service.Agents.Control.{
  and_then, text_field, adding, mark_task, mark_action, mark_command,
}

module _ (o : Outside) (c : Crew) (event : Event) (event_id : String) (round_id : ℕ) where
  unfoldable pub make_task : TaskPlan → Stage → Stage × Result Task
  make_task plan st =
      adding o c
        (λ now fresh s.
          add_task now fresh
            (record {
              id = 0;
              task_id = "";
              event_id = event_id;
              task_name = plan.name;
              task_type = plan.type_name;
              task_description = plan.description;
              task_status = "pending";
              task_priority = severity_priority event.severity;
              assigned_to = role_manager;
              task_assignee = plan.assignee;
              round_id = round_id;
              created_at = 0;
              updated_at = 0;
            })
            s)
        "task" st

  unfoldable pub make_action : Task → Stage → Stage × Result Action
  make_action task st =
      and_then
        (λ action st'. (
          mark_task o c
              (text_field "task_status" "processing" (text_field "assigned_to" role_operator end))
              task st',
          ok action,
        ))
        (adding o c
          (λ now fresh s.
            add_action now fresh
              (record {
                id = 0;
                action_id = "";
                task_id = task.task_id;
                event_id = event_id;
                round_id = round_id;
                action_name = action_name_for_task task;
                action_type = first_non_empty (task.task_type ∷ "query" ∷ []);
                action_assignee = role_operator;
                action_status = "pending";
                action_result = "";
                created_at = 0;
                updated_at = 0;
              })
              s)
          "act" st)

  unfoldable pub make_command : Action → Stage → Stage × Result Command
  make_command action st =
      let n = st.world.readings in
      let spec = command_spec_for_action event action in
      and_then (λ command st'. (mark_action o c "processing" action st', ok command))
        (adding o c
          (λ now fresh s.
            add_command now fresh
              (record {
                id = 0;
                command_id = "";
                action_id = action.action_id;
                task_id = action.task_id;
                event_id = event_id;
                round_id = round_id;
                command_name = spec.name;
                command_type = spec.type_name;
                command_assignee = role_executor;
                command_entity = standard_content o n spec.entity;
                command_params = standard_content o (n + 1) spec.params;
                command_status = "pending";
                command_result = "";
                created_at = 0;
                updated_at = 0;
              })
              s)
          "cmd" st)

  unfoldable pub make_execution : Command → Stage → Stage × Result Execution
  make_execution command st =
      let n = st.world.readings in
      and_then (λ exec st'. (mark_command o c exec command st', ok exec))
        (adding o c
          (λ now fresh s.
            add_execution now fresh
              (record {
                id = 0;
                execution_id = "";
                event_id = event_id;
                task_id = command.task_id;
                action_id = command.action_id;
                round_id = round_id;
                command_id = command.command_id;
                execution_status = "completed";
                execution_result = standard_content o n (obj (execution_result event command));
                execution_summary = append "执行器完成命令【" (append command.command_name "】，已返回结构化结果。");
                ai_summary = "";
                command_name = command.command_name;
                command_type = command.command_type;
                command_entity = command.command_entity;
                command_params = command.command_params;
                created_at = 0;
                updated_at = 0;
              })
              s)
          "exec" st)

  -- AddSummary and, where it succeeds, the expert's message.
  unfoldable pub summarise : List Execution → Stage → Stage × Result Summary
  summarise executions st =
      and_then
        (λ sm st'. (
          add_agent_message o c event_id role_expert "event_summary" round_id
              (expert_response event round_id sm executions) st',
          ok sm,
        ))
        (adding o c
          (λ now fresh s.
            add_summary now
              (record {
                id = 0;
                event_id = event_id;
                round_id = round_id;
                event_summary = event_summary event;
                created_at = 0;
                updated_at = 0;
              })
              s)
          "" st)
