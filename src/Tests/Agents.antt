-- ===== src/Tests/Agents.antt =====
-- The agents' and the services' theorems at one event and one alert.
use traffic_analysis.Base.{ℕ, true, false, String, none, some, List, [], ◌∷◌, ◌≡◌, refl}
use traffic_analysis.Dict.{get}
use traffic_analysis.Value.{Value, nil}
use traffic_analysis.Domain.{Event, Message, Task}
use traffic_analysis.Store.{MemoryStore, new_memory_store}
use traffic_analysis.Store.Rows.{rows_of}
use traffic_analysis.Store.Work.{list_tasks, list_executions}
use traffic_analysis.Service.Agents.{Crew, Stage, Response}
use traffic_analysis.Service.Agents.Workflow.{run_agent_workflow, has_worked}
use traffic_analysis.Service.Agents.Restore.{SameWork, run_agent_workflow-SameWork}
use traffic_analysis.Service.Agents.Again.{first_run, run_agent_workflow-again}
use traffic_analysis.Service.Agents.Finish.{run_agent_workflow_finished}
use traffic_analysis.Tests.{event_of, outside, world}

abbrev no_text : ℕ → Response → String
no_text reading response = ""

abbrev encoded : Message → Value
encoded m = nil

abbrev in_order : ℕ → List String → List String
in_order reading keys = keys

abbrev pub crew : Crew
crew = record { response_content = no_text; encode = encoded; visit = in_order }

abbrev store_with : List (String × List Task) → MemoryStore
store_with tasks = record (new_memory_store 1) {
  events = ("e1", event_of "e1") ∷ [];
  tasks_by_event = tasks;
}

abbrev stage_with : List (String × List Task) → Stage
stage_with tasks = record { world = record world { store = store_with tasks }; publisher = none }

abbrev task : Task
task = record {
  id = 1;
  task_id = "t1";
  event_id = "e1";
  task_name = "";
  task_type = "";
  task_description = "";
  task_status = "pending";
  task_priority = "";
  assigned_to = "";
  task_assignee = "";
  round_id = 1;
  created_at = 0;
  updated_at = 0;
}

abbrev pub idle : Stage
idle = stage_with []

abbrev worked : Stage
worked = stage_with (("e1", task ∷ []) ∷ [])

worked_has_worked : has_worked outside crew "e1" worked.world.store ≡ true
unfolding list_tasks list_executions rows_of get new_memory_store
worked_has_worked = refl

run_agent_workflow-SameWork_example :
    SameWork worked.world.store (run_agent_workflow outside crew "e1" worked).0.world.store
run_agent_workflow-SameWork_example =
    run_agent_workflow-SameWork outside crew "e1" worked worked_has_worked

idle_event : get idle.world.store.events "e1" ≡ some (event_of "e1")
unfolding get
idle_event = refl

idle_has_not : has_worked outside crew "e1" idle.world.store ≡ false
unfolding list_tasks list_executions rows_of get new_memory_store
idle_has_not = refl

run_agent_workflow_finished_example :
    ((run_agent_workflow outside crew "e1" idle).1 ≡ none)
    × ((e : Event) × (get (run_agent_workflow outside crew "e1" idle).0.world.store.events "e1"
          ≡ some e)
        × (e.event_status ≡ "round_finished"))
run_agent_workflow_finished_example =
    run_agent_workflow_finished outside crew "e1" idle idle_event idle_has_not

run_agent_workflow-again_example :
    SameWork
      (first_run outside crew "e1" idle idle_event idle_has_not).world.store
      (run_agent_workflow outside crew "e1"
        (first_run outside crew "e1" idle idle_event idle_has_not)).0.world.store
run_agent_workflow-again_example =
    run_agent_workflow-again outside crew "e1" idle idle_event idle_has_not
