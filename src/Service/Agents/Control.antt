-- ===== src/Service/Agents/Control.antt =====
-- internal/service/agents.go: the control flow of RunAgentWorkflow, and the updates that it makes
-- of rows that are there.
use traffic_analysis.Base.{ℕ, ◌+◌, Bool, ◌||◌, String, List, [], ◌∷◌, ◌==◌, any}
use traffic_analysis.Dict.{keys}
use traffic_analysis.Value.{Fields, str, end, field}
use traffic_analysis.Domain.{Message, Task, Action, Command, Execution}
use traffic_analysis.Domain.Roles.{
  role_captain, role_manager, role_operator, role_executor, role_expert, normalize_message_from,
}
use traffic_analysis.Store.{MemoryStore, Result, ok, err}
use traffic_analysis.Store.Events.{update_event}
use traffic_analysis.Store.Work.{update_task, update_action, update_command}
use traffic_analysis.Service.{Outside}
use traffic_analysis.Service.Agents.{Crew, Stage, on_store}

is_agent_message : Message → Bool
is_agent_message m =
    let from = normalize_message_from m.message_from in
    from == role_captain
    || from == role_manager
    || from == role_operator
    || from == role_executor
    || from == role_expert

unfoldable pub has_agent_workflow_messages : List Message → Bool
unfolding any is_agent_message
has_agent_workflow_messages messages = any is_agent_message messages

-- if err != nil { return err }
unfoldable pub and_then {ℓ} :
    {A B : Type ℓ} → (A → Stage → Stage × Result B) → Stage × Result A → Stage × Result B
and_then next (st, ok a) = next a st
and_then next (st, err e) = (st, err e)

-- A loop that ends at the first error, and collects what it made.
unfoldable pub collect {ℓ} :
    {A B : Type ℓ} → (A → Stage → Stage × Result B) → List A → Stage → Stage × Result (List B)
collect make [] st = (st, ok [])
collect make (a ∷ rest) st =
    and_then (λ b. λ st'. and_then (λ bs st''. (st'', ok (b ∷ bs))) (collect make rest st'))
      (make a st)

unfoldable pub for_all {ℓ} : {A : Type ℓ} → (A → Stage → Stage) → List A → Stage → Stage
for_all visit [] st = st
for_all visit (a ∷ rest) st = for_all visit rest (visit a st)

abbrev pub text_field : String → String → Fields → Fields
text_field k v rest = field k (str v) rest

module _ (o : Outside) (c : Crew) where
  -- A method of the store that adds a row.
  abbrev pub adding {ℓ} :
      {A : Type ℓ}
      → (ℕ → String → MemoryStore → MemoryStore × Result A)
      → String
      → Stage
      → Stage × Result A
  adding add prefix st =
      let n = st.world.readings + 2 in
      let (s, result) = add (o.now n) (o.new_id n prefix) st.world.store in
      (record st { world = record st.world { store = s; readings = n + 1 } }, result)

  -- The updates: their results and errors are dropped.
  unfoldable pub mark_event : String → String → Stage → Stage
  mark_event event_id status st =
      on_store o c
        (λ n s. (update_event (o.now n) event_id (text_field "event_status" status end) s).0) st

  unfoldable pub mark_task : Fields → Task → Stage → Stage
  mark_task patch task st =
      on_store o c
        (λ n s. (update_task (o.now n) (c.visit n (keys s.tasks_by_event)) task.task_id patch s).0)
        st

  unfoldable pub mark_action : String → Action → Stage → Stage
  mark_action status action st =
      on_store o c
        (λ n s.
          (update_action (o.now n) (c.visit n (keys s.actions_by_event)) action.action_id
            (text_field "action_status" status end) s).0)
        st

  unfoldable pub mark_command : Execution → Command → Stage → Stage
  mark_command exec command st =
      on_store o c
        (λ n s.
          (update_command (o.now n) (c.visit n (keys s.commands_by_event)) command.command_id
            (text_field "command_status" "completed"
              (text_field "command_result" exec.execution_result end))
            s).0)
        st
