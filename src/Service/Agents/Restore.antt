-- ===== src/Service/Agents/Restore.antt =====
-- internal/service/agents.go: RunAgentWorkflow on an event that was worked on makes no new work.
use traffic_analysis.Base.{
  ℕ, Bool, true, String, Option, none, List, [], ◌∷◌, ◌≡◌, refl, arith, ◌∙◌, inl, inr, Option-cases,
  if-elim, if-true,
}
use traffic_analysis.Domain.{Event, Message, Task, Action, Command, Execution, Summary}
use traffic_analysis.Store.{MemoryStore, Result, ok, err}
use traffic_analysis.Store.Events.{get_event}
use traffic_analysis.Store.Messages.{add_message, list_messages}
use traffic_analysis.Store.Work.{
  add_summary, list_tasks, list_actions, list_commands, list_executions, list_summaries,
}
use traffic_analysis.Service.{Outside}
use traffic_analysis.Service.Agents.{Crew, Stage, Response, told, add_agent_message}
use traffic_analysis.Service.Agents.Plans.{first_non_zero}
use traffic_analysis.Service.Agents.Steps.{summarise}
use traffic_analysis.Service.Agents.Control.{and_then, has_agent_workflow_messages}
use traffic_analysis.Service.Agents.Calls.{store-publish}
use traffic_analysis.Service.Agents.Workflow.{
  error_of, says_if, restore_summary, restore_agent_workflow_messages, has_worked, restore_event,
  run_event, run_agent_workflow,
}

-- The same tasks, actions, commands and executions.
pub record SameWork (s s' : MemoryStore) : Type 0 where
  pub tasks : s'.tasks_by_event ≡ s.tasks_by_event
  pub actions : s'.actions_by_event ≡ s.actions_by_event
  pub commands : s'.commands_by_event ≡ s.commands_by_event
  pub executions : s'.exec_by_event ≡ s.exec_by_event

SameWork-refl : (s : MemoryStore) → SameWork s s
SameWork-refl s = record { tasks = refl; actions = refl; commands = refl; executions = refl }

SameWork-trans : {a b c : MemoryStore} → SameWork a b → SameWork b c → SameWork a c
SameWork-trans p q = record {
  tasks = q.tasks ∙ p.tasks;
  actions = q.actions ∙ p.actions;
  commands = q.commands ∙ p.commands;
  executions = q.executions ∙ p.executions;
}

add_message-SameWork :
    (now : ℕ) (fresh : String) (m : Message) (s : MemoryStore)
    → SameWork s (add_message now fresh m s).0
unfolding add_message
add_message-SameWork now fresh m s = record {
  tasks = ground arith;
  actions = ground arith;
  commands = ground arith;
  executions = ground arith;
}

add_summary-SameWork :
    (now : ℕ) (sm : Summary) (s : MemoryStore) → SameWork s (add_summary now sm s).0
unfolding add_summary
add_summary-SameWork now sm s = record {
  tasks = ground arith;
  actions = ground arith;
  commands = ground arith;
  executions = ground arith;
}

abbrev pub Idles : Stage → Stage → Type 0
Idles st st' = SameWork st.world.store st'.world.store

module _ {A B : Type 0} (next : A → Stage → Stage × Result B)
    (idles : (a : A) (st : Stage) → Idles st (next a st).0) where
  and_then-Idles :
      (start : Stage) (r : Stage × Result A) → Idles start r.0 → Idles start (and_then next r).0
  unfolding and_then
  and_then-Idles start (st, ok a) m = SameWork-trans m (idles a st)
  and_then-Idles start (st, err e) m = m

error_of-Idles :
    {A : Type 0} (st : Stage) (r : Stage × Result A) → Idles st r.0 → Idles st (error_of r).0
error_of-Idles st (st', ok a) m = m
error_of-Idles st (st', err e) m = m

module _ (o : Outside) (c : Crew) where
  told-Idles :
      (event_id from message_type : String) (r : Result Message) (st : Stage)
      → Idles st (told o c event_id from message_type r st)
  unfolding told
  told-Idles event_id from message_type (err e) st = SameWork-refl st.world.store
  told-Idles event_id from message_type (ok m) st =
      rw (store-publish o c _ event_id from _ st.world) (SameWork-refl st.world.store)

  add_agent_message-Idles :
      (event_id role message_type : String) (round_id : ℕ) (response : Response) (st : Stage)
      → Idles st (add_agent_message o c event_id role message_type round_id response st)
  unfolding add_agent_message
  add_agent_message-Idles event_id role message_type round_id response st =
      SameWork-trans (add_message-SameWork _ _ _ st.world.store)
        (told-Idles event_id _ message_type _ _)

  module _ (event : Event) (round_id : ℕ) where
    summarise-Idles :
        (executions : List Execution) (st : Stage)
        → Idles st (summarise o c event event.event_id round_id executions st).0
    unfolding summarise
    summarise-Idles executions st =
        and_then-Idles _ (λ sm st'. add_agent_message-Idles event.event_id _ _ round_id _ st') st _
          (add_summary-SameWork _ _ st.world.store)

    says_if-Idles :
        (some_rows : Bool) (role message_type : String) (response : Response) (st : Stage)
        → Idles st (says_if o c event round_id some_rows role message_type response st)
    unfolding says_if
    says_if-Idles some_rows role message_type response st =
        if-elim (Idles st) some_rows _ _
          (λ _. add_agent_message-Idles event.event_id role message_type round_id response st)
          (λ _. SameWork-refl st.world.store)

    restore_summary-Idles :
        (executions : List Execution) (summaries : List Summary) (st : Stage)
        → Idles st (restore_summary o c event round_id executions summaries st).0
    unfolding restore_summary
    restore_summary-Idles executions (sm ∷ rest) st =
        add_agent_message-Idles event.event_id _ _ round_id _ st
    restore_summary-Idles [] [] st = SameWork-refl st.world.store
    restore_summary-Idles (e ∷ rest) [] st = error_of-Idles st _ (summarise-Idles (e ∷ rest) st)

    restore-Idles :
        (tasks : List Task) (actions : List Action) (commands : List Command)
        (executions : List Execution) (summaries : List Summary) (st : Stage)
        → Idles st
            (restore_agent_workflow_messages o c event round_id tasks actions commands executions
              summaries st).0
    unfolding restore_agent_workflow_messages
    restore-Idles tasks actions commands executions summaries st =
        SameWork-trans (says_if-Idles _ _ _ _ st) (
          SameWork-trans (says_if-Idles _ _ _ _ _) (
            SameWork-trans (says_if-Idles _ _ _ _ _) (
              SameWork-trans (says_if-Idles _ _ _ _ _)
                (restore_summary-Idles executions summaries _))))

  abbrev Rests : Stage → Stage × Option String → Type 0
  Rests st r = Idles st r.0

  restore_event-Idles :
      (event_id : String) (event : Event) (st : Stage)
      → Idles st (restore_event o c event_id event st).0
  unfolding restore_event
  restore_event-Idles event_id event st =
      let s = st.world.store in
      let round_id = first_non_zero event.current_round 1 in
      let restored =
        restore_agent_workflow_messages o c event round_id (list_tasks event_id s)
          (list_actions event_id s) (list_commands event_id s) (list_executions event_id s)
          (list_summaries event_id s) st in
      if-elim (Rests st) (has_agent_workflow_messages (list_messages event_id s)) (st, none)
        restored (λ _. SameWork-refl st.world.store)
        (λ _. restore-Idles event round_id _ _ _ _ _ st)

  run_event_worked :
      (event_id : String) (event : Event) (st : Stage)
      → has_worked o c event_id st.world.store ≡ true
      → run_event o c event_id event st ≡ restore_event o c event_id event st
  unfolding run_event
  run_event_worked event_id event st worked = if-true _ _ worked

  -- RunAgentWorkflow on an event that has tasks or executions leaves all tasks, actions, commands
  -- and executions of the store as they are.
  pub run_agent_workflow-SameWork :
      (event_id : String) (st : Stage)
      → has_worked o c event_id st.world.store ≡ true
      → SameWork st.world.store (run_agent_workflow o c event_id st).0.world.store
  unfolding run_agent_workflow
  run_agent_workflow-SameWork event_id st worked =
      elim (Option-cases (get_event st.world.store event_id)) [
        | inl missing ↦ rw (missing, run_agent_workflow) (SameWork-refl st.world.store)
        | inr (event, there) ↦
            rw (there, run_agent_workflow, run_event_worked event_id event st worked)
              (restore_event-Idles event_id event st)
      ]
