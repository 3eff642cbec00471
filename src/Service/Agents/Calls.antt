-- ===== src/Service/Agents/Calls.antt =====
-- internal/service/agents.go: all that RunAgentWorkflow does to the store is calls of the store's
-- methods, whichever way it ends.
use traffic_analysis.Base.{ℕ, String, List, [], ◌∷◌, ◌≡◌, arith}
use traffic_analysis.Value.{Fields}
use traffic_analysis.Domain.{Event, Message, Task, Action, Command, Execution}
use traffic_analysis.Store.{Result, ok, err}
use traffic_analysis.Store.Trace.{
  step, updates_event, adds_message, adds_task, updates_task, adds_action, updates_action,
  adds_command, updates_command, adds_execution, adds_summary,
}
use traffic_analysis.Store.Trace.Leads.{Leads, Leads-refl, Leads-trans, Leads-step}
use traffic_analysis.Service.{Outside, World, Payload, publish}
use traffic_analysis.Service.Agents.{Crew, Stage, Response, told, add_agent_message}
use traffic_analysis.Service.Agents.Plans.{TaskPlan}
use traffic_analysis.Service.Agents.Steps.{
  make_task, make_action, make_command, make_execution, summarise,
}
use traffic_analysis.Service.Agents.Control.{
  and_then, collect, for_all, mark_event, mark_task, mark_action, mark_command,
}

-- The store of the second stage is one that calls lead to from the first's.
abbrev pub Moves : Stage → Stage → Type 0
Moves st st' = Leads st.world.store st'.world.store

module _ {A B : Type 0} (next : A → Stage → Stage × Result B)
    (moves : (a : A) (st : Stage) → Moves st (next a st).0) where
  pub and_then-Moves :
      (start : Stage) (r : Stage × Result A) → Moves start r.0 → Moves start (and_then next r).0
  unfolding and_then
  and_then-Moves start (st, ok a) m = Leads-trans m (moves a st)
  and_then-Moves start (st, err e) m = m

pub collect-Moves :
    {A B : Type 0} (make : A → Stage → Stage × Result B)
    → ((a : A) (st : Stage) → Moves st (make a st).0)
    → (list : List A) (st : Stage) → Moves st (collect make list st).0
unfolding collect
collect-Moves make moves [] st = Leads-refl st.world.store
collect-Moves make moves (a ∷ rest) st =
    and_then-Moves _
      (λ b st'.
        and_then-Moves _ (λ bs st''. Leads-refl st''.world.store) st' _
          (collect-Moves make moves rest st'))
      st _ (moves a st)

pub for_all-Moves :
    {A : Type 0} (visit : A → Stage → Stage)
    → ((a : A) (st : Stage) → Moves st (visit a st))
    → (list : List A) (st : Stage) → Moves st (for_all visit list st)
unfolding for_all
for_all-Moves visit moves [] st = Leads-refl st.world.store
for_all-Moves visit moves (a ∷ rest) st =
    Leads-trans (moves a st) (for_all-Moves visit moves rest (visit a st))

module _ (o : Outside) (c : Crew) where
  pub store-publish :
      (key id source : String) (p : Payload) (w : World)
      → (publish o key id source p w).store ≡ w.store
  unfolding publish
  store-publish key id source p w = ground arith

  pub told-Moves :
      (event_id from message_type : String) (r : Result Message) (st : Stage)
      → Moves st (told o c event_id from message_type r st)
  unfolding told
  told-Moves event_id from message_type (err e) st = Leads-refl st.world.store
  told-Moves event_id from message_type (ok m) st =
      rw (store-publish _ event_id from _ st.world) (Leads-refl st.world.store)

  pub add_agent_message-Moves :
      (event_id role message_type : String) (round_id : ℕ) (response : Response) (st : Stage)
      → Moves st (add_agent_message o c event_id role message_type round_id response st)
  unfolding add_agent_message step
  add_agent_message-Moves event_id role message_type round_id response st =
      Leads-trans (Leads-step (adds_message _ _ _) st.world.store)
        (told-Moves event_id _ message_type _ _)

  pub mark_event-Moves :
      (event_id status : String) (st : Stage) → Moves st (mark_event o c event_id status st)
  unfolding mark_event step
  mark_event-Moves event_id status st = Leads-step (updates_event _ _ _) st.world.store

  pub mark_task-Moves :
      (patch : Fields) (task : Task) (st : Stage) → Moves st (mark_task o c patch task st)
  unfolding mark_task step
  mark_task-Moves patch task st = Leads-step (updates_task _ _ _ _) st.world.store

  pub mark_action-Moves :
      (status : String) (action : Action) (st : Stage) → Moves st (mark_action o c status action st)
  unfolding mark_action step
  mark_action-Moves status action st = Leads-step (updates_action _ _ _ _) st.world.store

  pub mark_command-Moves :
      (exec : Execution) (command : Command) (st : Stage)
      → Moves st (mark_command o c exec command st)
  unfolding mark_command step
  mark_command-Moves exec command st = Leads-step (updates_command _ _ _ _) st.world.store

  module _ (event : Event) (event_id : String) (round_id : ℕ) where
    pub make_task-Moves :
        (plan : TaskPlan) (st : Stage) → Moves st (make_task o c event event_id round_id plan st).0
    unfolding make_task step
    make_task-Moves plan st = Leads-step (adds_task _ _ _) st.world.store

    pub make_action-Moves :
        (task : Task) (st : Stage) → Moves st (make_action o c event event_id round_id task st).0
    unfolding make_action step
    make_action-Moves task st =
        and_then-Moves _ (λ action st'. mark_task-Moves _ task st') st _
          (Leads-step (adds_action _ _ _) st.world.store)

    pub make_command-Moves :
        (action : Action) (st : Stage)
        → Moves st (make_command o c event event_id round_id action st).0
    unfolding make_command step
    make_command-Moves action st =
        and_then-Moves _ (λ command st'. mark_action-Moves _ action st') st _
          (Leads-step (adds_command _ _ _) st.world.store)

    pub make_execution-Moves :
        (command : Command) (st : Stage)
        → Moves st (make_execution o c event event_id round_id command st).0
    unfolding make_execution step
    make_execution-Moves command st =
        and_then-Moves _ (λ exec st'. mark_command-Moves exec command st') st _
          (Leads-step (adds_execution _ _ _) st.world.store)

    pub summarise-Moves :
        (executions : List Execution) (st : Stage)
        → Moves st (summarise o c event event_id round_id executions st).0
    unfolding summarise step
    summarise-Moves executions st =
        and_then-Moves _ (λ sm st'. add_agent_message-Moves event_id _ _ round_id _ st') st _
          (Leads-step (adds_summary _ _) st.world.store)
