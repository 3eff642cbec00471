-- ===== src/Service/Agents/History.antt =====
-- internal/service/agents.go: the whole of RunAgentWorkflow as calls of the store's methods.
use traffic_analysis.Base.{
  ℕ, Bool, String, Option, none, List, [], ◌∷◌, inl, inr, Option-cases, if-elim,
}
use traffic_analysis.Domain.{Event, Task, Action, Command, Execution, Summary}
use traffic_analysis.Store.{Result, ok, err}
use traffic_analysis.Store.Events.{get_event}
use traffic_analysis.Store.Messages.{list_messages}
use traffic_analysis.Store.Work.{
  list_tasks, list_actions, list_commands, list_executions, list_summaries,
}
use traffic_analysis.Service.Agents.Control.{has_agent_workflow_messages}
use traffic_analysis.Store.Trace.Leads.{Leads, Leads-refl, Leads-trans}
use traffic_analysis.Service.{Outside}
use traffic_analysis.Service.Agents.{Crew, Stage, Response}
use traffic_analysis.Service.Agents.Plans.{build_task_plans, first_non_zero}
use traffic_analysis.Service.Agents.Calls.{
  Moves, and_then-Moves, collect-Moves, for_all-Moves, add_agent_message-Moves, mark_event-Moves,
  mark_task-Moves, mark_action-Moves, make_task-Moves, make_action-Moves, make_command-Moves,
  make_execution-Moves, summarise-Moves,
}
use traffic_analysis.Service.Agents.Workflow.{
  announce_execution, announce_finished, finish_round, close_round, run_commands, run_actions,
  run_tasks, start_round, error_of, says_if, restore_summary, restore_agent_workflow_messages,
  restore_event, run_event, run_agent_workflow, has_worked,
}

pub announce_execution-Moves :
    (event_id : String) (exec : Execution) (st : Stage)
    → Moves st (announce_execution event_id exec st)
unfolding announce_execution
announce_execution-Moves event_id exec st = Leads-refl st.world.store

error_of-Moves :
    {A : Type 0} (st : Stage) (r : Stage × Result A) → Moves st r.0 → Moves st (error_of r).0
error_of-Moves st (st', ok a) m = m
error_of-Moves st (st', err e) m = m

module _ (o : Outside) (c : Crew) (event : Event) (event_id : String) (round_id : ℕ) where
  finish_round-Moves :
      (executions : List Execution) (st : Stage)
      → Moves st (finish_round o c event event_id round_id executions st).0
  unfolding finish_round announce_finished
  finish_round-Moves executions st =
      and_then-Moves _ (λ sm st'. mark_event-Moves o c event_id _ st') st _
        (summarise-Moves o c event event_id round_id executions st)

  close_round-Moves :
      (tasks : List Task) (actions : List Action) (executions : List Execution) (st : Stage)
      → Moves st (close_round o c event event_id round_id tasks actions executions st).0
  unfolding close_round
  close_round-Moves tasks actions executions st =
      Leads-trans (for_all-Moves _ (mark_action-Moves o c "completed") actions st) (
        Leads-trans (for_all-Moves _ (mark_task-Moves o c _) tasks _) (
          Leads-trans (add_agent_message-Moves o c event_id _ _ round_id _ _) (
            Leads-trans (for_all-Moves _ (announce_execution-Moves event_id) executions _)
              (finish_round-Moves executions _))))

  run_commands-Moves :
      (tasks : List Task) (actions : List Action) (commands : List Command) (st : Stage)
      → Moves st (run_commands o c event event_id round_id tasks actions commands st).0
  unfolding run_commands
  run_commands-Moves tasks actions commands st =
      and_then-Moves _ (close_round-Moves tasks actions) st _ (
        Leads-trans (add_agent_message-Moves o c event_id _ _ round_id _ st)
          (collect-Moves _ (make_execution-Moves o c event event_id round_id) commands _))

  run_actions-Moves :
      (tasks : List Task) (actions : List Action) (st : Stage)
      → Moves st (run_actions o c event event_id round_id tasks actions st).0
  unfolding run_actions
  run_actions-Moves tasks actions st = and_then-Moves _ (run_commands-Moves tasks actions) st _ (
      Leads-trans (add_agent_message-Moves o c event_id _ _ round_id _ st)
        (collect-Moves _ (make_command-Moves o c event event_id round_id) actions _))

  pub run_tasks-Moves :
      (tasks : List Task) (st : Stage) → Moves st (run_tasks o c event event_id round_id tasks st).0
  unfolding run_tasks
  run_tasks-Moves tasks st = and_then-Moves _ (run_actions-Moves tasks) st _ (
      Leads-trans (add_agent_message-Moves o c event_id _ _ round_id _ st)
        (collect-Moves _ (make_action-Moves o c event event_id round_id) tasks _))

  start_round-Moves : (st : Stage) → Moves st (start_round o c event event_id round_id st).0
  unfolding start_round
  start_round-Moves st = and_then-Moves _ run_tasks-Moves st _ (
      Leads-trans (mark_event-Moves o c event_id "processing" st)
        (collect-Moves _ (make_task-Moves o c event event_id round_id) (build_task_plans event) _))

module _ (o : Outside) (c : Crew) (event : Event) (round_id : ℕ) where
  pub says_if-Moves :
      (some_rows : Bool) (role message_type : String) (response : Response) (st : Stage)
      → Moves st (says_if o c event round_id some_rows role message_type response st)
  unfolding says_if
  says_if-Moves some_rows role message_type response st =
      if-elim (Moves st) some_rows _ _
        (λ _. add_agent_message-Moves o c event.event_id role message_type round_id response st)
        (λ _. Leads-refl st.world.store)

  restore_summary-Moves :
      (executions : List Execution) (summaries : List Summary) (st : Stage)
      → Moves st (restore_summary o c event round_id executions summaries st).0
  unfolding restore_summary
  restore_summary-Moves executions (sm ∷ rest) st =
      add_agent_message-Moves o c event.event_id _ _ round_id _ st
  restore_summary-Moves [] [] st = Leads-refl st.world.store
  restore_summary-Moves (e ∷ rest) [] st =
      error_of-Moves st _ (summarise-Moves o c event event.event_id round_id (e ∷ rest) st)

  restore-Moves :
      (tasks : List Task) (actions : List Action) (commands : List Command)
      (executions : List Execution) (summaries : List Summary) (st : Stage)
      → Moves st
          (restore_agent_workflow_messages o c event round_id tasks actions commands executions
            summaries st).0
  unfolding restore_agent_workflow_messages
  restore-Moves tasks actions commands executions summaries st =
      Leads-trans (says_if-Moves _ _ _ _ st) (
        Leads-trans (says_if-Moves _ _ _ _ _) (
          Leads-trans (says_if-Moves _ _ _ _ _)
            (Leads-trans (says_if-Moves _ _ _ _ _) (restore_summary-Moves executions summaries _))))

module _ (o : Outside) (c : Crew) where
  abbrev Leaves : Stage → Stage × Option String → Type 0
  Leaves st r = Moves st r.0

  restore_event-Moves :
      (event_id : String) (event : Event) (st : Stage)
      → Moves st (restore_event o c event_id event st).0
  unfolding restore_event
  restore_event-Moves event_id event st =
      let s = st.world.store in
      let round_id = first_non_zero event.current_round 1 in
      let restored =
        restore_agent_workflow_messages o c event round_id (list_tasks event_id s)
          (list_actions event_id s) (list_commands event_id s) (list_executions event_id s)
          (list_summaries event_id s) st in
      if-elim (Leaves st) (has_agent_workflow_messages (list_messages event_id s)) (st, none)
        restored (λ _. Leads-refl st.world.store)
        (λ _. restore-Moves o c event round_id _ _ _ _ _ st)

  run_event-Moves :
      (event_id : String) (event : Event) (st : Stage)
      → Moves st (run_event o c event_id event st).0
  unfolding run_event
  run_event-Moves event_id event st =
      let started = start_round o c event event_id (first_non_zero event.current_round 1) st in
      if-elim (Leaves st) (has_worked o c event_id st.world.store)
        (restore_event o c event_id event st) (error_of started)
        (λ _. restore_event-Moves event_id event st)
        (λ _. error_of-Moves st started (start_round-Moves o c event event_id _ st))

  -- Whatever RunAgentWorkflow is run on and however it ends, the store that it leaves is one that a
  -- sequence of calls of the store's methods leads to from the store that it found.
  pub run_agent_workflow-Leads :
      (event_id : String) (st : Stage)
      → Leads st.world.store (run_agent_workflow o c event_id st).0.world.store
  unfolding run_agent_workflow
  run_agent_workflow-Leads event_id st = elim (Option-cases (get_event st.world.store event_id)) [
    | inl missing ↦ rw (missing, run_agent_workflow) (Leads-refl st.world.store)
    | inr (event, there) ↦ rw (there, run_agent_workflow) (run_event-Moves event_id event st)
  ]
