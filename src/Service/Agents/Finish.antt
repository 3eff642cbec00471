-- ===== src/Service/Agents/Finish.antt =====
-- internal/service/agents.go: RunAgentWorkflow of an event that is there ends without an error.
use traffic_analysis.Base.{ℕ, false, String, none, some, List, ◌≡◌, refl, if-false}
use traffic_analysis.Dict.{get}
use traffic_analysis.Domain.{Event, Task, Action, Command, Execution, Summary}
use traffic_analysis.Store.{Result, ok, err}
use traffic_analysis.Store.Events.{get_event}
use traffic_analysis.Store.Trace.Leads.{Leads-trans}
use traffic_analysis.Service.{Outside}
use traffic_analysis.Service.Agents.{Crew, Stage}
use traffic_analysis.Service.Agents.Plans.{build_task_plans, first_non_zero}
use traffic_analysis.Service.Agents.Control.{and_then}
use traffic_analysis.Service.Agents.Calls.{
  for_all-Moves, add_agent_message-Moves, mark_event-Moves, mark_task-Moves, mark_action-Moves,
}
use traffic_analysis.Service.Agents.Done.{
  Has, Leads-Has, IsDone, collect-IsDone, make_task-IsDone, make_action-IsDone, make_command-IsDone,
  make_execution-IsDone, summarise-IsDone,
}
use traffic_analysis.Store.Patch.{string_patch}
use traffic_analysis.Store.Events.{update_event, patched_event}
use traffic_analysis.Value.{at}
use traffic_analysis.Service.Agents.Control.{mark_event}
use traffic_analysis.Service.Agents.Workflow.{announce_finished}
use traffic_analysis.Dict.Laws.{get-put_self}
use traffic_analysis.Service.Agents.History.{announce_execution-Moves}
use traffic_analysis.Service.Agents.Workflow.{
  finish_round, close_round, run_commands, run_actions, run_tasks, start_round, error_of,
  has_worked, run_event, run_agent_workflow,
}

-- The result is there, and the event after it, with its round finished.
record IsFinished (event_id : String) {A : Type 0} (r : Stage × Result A) : Type 0 where
  pub value : A
  pub gives : r.1 ≡ ok value
  pub event : Event
  pub has : get r.0.world.store.events event_id ≡ some event
  pub status : event.event_status ≡ "round_finished"

module _ (event_id : String) {A B : Type 0} (next : A → Stage → Stage × Result B) where
  and_then-IsFinished :
      (r : Stage × Result A)
      → IsDone event_id r
      → ((a : A) (st : Stage) → Has event_id st → IsFinished event_id (next a st))
      → IsFinished event_id (and_then next r)
  unfolding and_then
  and_then-IsFinished (st, ok a) d then_done = then_done a st d.has
  and_then-IsFinished (st, err e) d then_done = absurd (cc d.gives)

module _ (o : Outside) (c : Crew) (event : Event) (event_id : String) (round_id : ℕ) where
  finish_round-IsFinished :
      (executions : List Execution) (st : Stage)
      → Has event_id st
      → IsFinished event_id (finish_round o c event event_id round_id executions st)
  unfolding finish_round announce_finished mark_event update_event patched_event string_patch at
  finish_round-IsFinished executions st h =
      and_then-IsFinished event_id _ _
        (summarise-IsDone o c event event_id round_id executions st h)
        (λ sm st' (e, there).
          rw (there, update_event)
            (record {
              value = sm;
              gives = refl;
              event = _;
              has = get-put_self st'.world.store.events event_id _;
              status = refl;
            }))

  close_round-IsFinished :
      (tasks : List Task) (actions : List Action) (executions : List Execution) (st : Stage)
      → Has event_id st
      → IsFinished event_id (close_round o c event event_id round_id tasks actions executions st)
  unfolding close_round
  close_round-IsFinished tasks actions executions st h = finish_round-IsFinished executions _ (
      Leads-Has event_id
        (Leads-trans (for_all-Moves _ (mark_action-Moves o c "completed") actions st) (
          Leads-trans (for_all-Moves _ (mark_task-Moves o c _) tasks _) (
            Leads-trans (add_agent_message-Moves o c event_id _ _ round_id _ _)
              (for_all-Moves _ (announce_execution-Moves event_id) executions _))))
        h)

  run_commands-IsFinished :
      (tasks : List Task) (actions : List Action) (commands : List Command) (st : Stage)
      → Has event_id st
      → IsFinished event_id (run_commands o c event event_id round_id tasks actions commands st)
  unfolding run_commands
  run_commands-IsFinished tasks actions commands st h =
      and_then-IsFinished event_id _ _
        (collect-IsDone event_id _ (make_execution-IsDone o c event event_id round_id) commands _
          (Leads-Has event_id (add_agent_message-Moves o c event_id _ _ round_id _ st) h))
        (close_round-IsFinished tasks actions)

  run_actions-IsFinished :
      (tasks : List Task) (actions : List Action) (st : Stage)
      → Has event_id st
      → IsFinished event_id (run_actions o c event event_id round_id tasks actions st)
  unfolding run_actions
  run_actions-IsFinished tasks actions st h =
      and_then-IsFinished event_id _ _
        (collect-IsDone event_id _ (make_command-IsDone o c event event_id round_id) actions _
          (Leads-Has event_id (add_agent_message-Moves o c event_id _ _ round_id _ st) h))
        (run_commands-IsFinished tasks actions)

  run_tasks-IsFinished :
      (tasks : List Task) (st : Stage)
      → Has event_id st
      → IsFinished event_id (run_tasks o c event event_id round_id tasks st)
  unfolding run_tasks
  run_tasks-IsFinished tasks st h =
      and_then-IsFinished event_id _ _
        (collect-IsDone event_id _ (make_action-IsDone o c event event_id round_id) tasks _
          (Leads-Has event_id (add_agent_message-Moves o c event_id _ _ round_id _ st) h))
        (run_actions-IsFinished tasks)

  start_round-IsFinished :
      (st : Stage)
      → Has event_id st
      → IsFinished event_id (start_round o c event event_id round_id st)
  unfolding start_round
  start_round-IsFinished st h =
      and_then-IsFinished event_id _ _
        (collect-IsDone event_id _ (make_task-IsDone o c event event_id round_id)
          (build_task_plans event) _ (Leads-Has event_id (mark_event-Moves o c event_id _ st) h))
        run_tasks-IsFinished

module _ (o : Outside) (c : Crew) (event_id : String) (st : Stage) {event : Event}
    (there : get st.world.store.events event_id ≡ some event)
    (idle : has_worked o c event_id st.world.store ≡ false) where
  abbrev started : Stage × Result Summary
  started = start_round o c event event_id (first_non_zero event.current_round 1) st

  pub run_agent_workflow-started : run_agent_workflow o c event_id st ≡ error_of started
  unfolding run_agent_workflow get_event run_event
  run_agent_workflow-started = rw (there, run_agent_workflow) (if-false _ _ idle)

  -- RunAgentWorkflow on an event that is there and has neither tasks nor executions ends without
  -- an error, and leaves the event with the status of a finished round.
  pub run_agent_workflow_finished :
      ((run_agent_workflow o c event_id st).1 ≡ none)
      × ((e : Event) × (get (run_agent_workflow o c event_id st).0.world.store.events event_id
            ≡ some e)
          × (e.event_status ≡ "round_finished"))
  run_agent_workflow_finished =
      let f =
        start_round-IsFinished o c event event_id (first_non_zero event.current_round 1) st
          (event, there) in
      rw run_agent_workflow-started (ended started f)
    where
      ended :
          (r : Stage × Result Summary)
          → IsFinished event_id r
          → ((error_of r).1 ≡ none)
            × ((e : Event) × (get (error_of r).0.world.store.events event_id ≡ some e)
                × (e.event_status ≡ "round_finished"))
      ended (st', ok sm) f = (refl, (f.event, f.has, f.status))
      ended (st', err e) f = absurd (cc f.gives)
