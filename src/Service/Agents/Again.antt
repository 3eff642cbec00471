-- ===== src/Service/Agents/Again.antt =====
-- internal/service/agents.go: a second run of the workflow makes no new work.
use traffic_analysis.Base.{
  ℕ, ◌≤◌, true, false, String, Option, some, List, [], ◌∷◌, ◌≡◌, refl, arith, length, length-append,
  eq_refl, sym,
}
use mathlib.Core.Path.{subst}
use traffic_analysis.Dict.{get}
use traffic_analysis.Domain.{Event}
use traffic_analysis.Store.{Result, ok, err}
use traffic_analysis.Store.Rows.{rows_of}
use traffic_analysis.Store.Rows.Laws.{rows_of-append_row}
use traffic_analysis.Store.Work.{added_task, add_task, list_tasks}
use traffic_analysis.Store.Trace.Leads.{Leads-refl}
use traffic_analysis.Store.Trace.Tasks.{task_count, task_count-Leads}
use traffic_analysis.Service.{Outside}
use traffic_analysis.Service.Agents.{Crew, Stage}
use traffic_analysis.Service.Agents.Plans.{TaskPlan, build_task_plans, or_default, first_non_zero}
use traffic_analysis.Service.Agents.Control.{and_then, collect}
use traffic_analysis.Service.Agents.Steps.{make_task}
use traffic_analysis.Service.Agents.Calls.{
  Moves, and_then-Moves, collect-Moves, mark_event-Moves, make_task-Moves,
}
use traffic_analysis.Service.Agents.History.{run_tasks-Moves}
use traffic_analysis.Service.Agents.Done.{Has, Leads-Has}
use traffic_analysis.Service.Agents.Workflow.{
  is_empty, error_of, start_round, has_worked, run_agent_workflow,
}
use traffic_analysis.Service.Agents.Finish.{run_agent_workflow-started}
use traffic_analysis.Service.Agents.Restore.{SameWork, run_agent_workflow-SameWork}

or_default-cons :
    (event : Event) (plans : List TaskPlan)
    → (p : TaskPlan) × (ps : List TaskPlan) × (or_default event plans ≡ p ∷ ps)
unfolding or_default
or_default-cons event [] = (_, [], refl)
or_default-cons event (p ∷ ps) = (p, ps, refl)

-- There is always a plan.
build_task_plans-cons :
    (event : Event) → (p : TaskPlan) × (ps : List TaskPlan) × (build_task_plans event ≡ p ∷ ps)
unfolding build_task_plans
build_task_plans-cons event = or_default-cons event _

abbrev Counts : String → {A : Type 0} → Stage × Result A → Type 0
Counts event_id r = 1 ≤ task_count event_id r.0.world.store

module _ (o : Outside) (c : Crew) (event : Event) (event_id : String) (round_id : ℕ) where
  make_task-Counts :
      (plan : TaskPlan) (st : Stage)
      → Has event_id st
      → Counts event_id (make_task o c event event_id round_id plan st)
  unfolding make_task add_task added_task
  make_task-Counts plan st (e, there) =
      rw
        (
          there,
          add_task,
          rows_of-append_row st.world.store.tasks_by_event event_id event_id _,
          eq_refl event_id,
          length-append (rows_of st.world.store.tasks_by_event event_id) (_ ∷ []),
        )
        (omega arith)

  and_then-Counts :
      {A B : Type 0} (next : A → Stage → Stage × Result B)
      → ((a : A) (st : Stage) → Moves st (next a st).0)
      → (r : Stage × Result A) → Counts event_id r
      → Counts event_id (and_then next r)
  and_then-Counts next moves r h = omega (
    arith,
    task_count-Leads event_id (and_then-Moves next moves r.0 r (Leads-refl r.0.world.store)),
  )

  collect-Counts :
      (plan : TaskPlan) (plans : List TaskPlan) (st : Stage)
      → Has event_id st
      → Counts event_id (collect (make_task o c event event_id round_id) (plan ∷ plans) st)
  unfolding collect
  collect-Counts plan plans st h =
      and_then-Counts _
        (λ b st'.
          and_then-Moves _ (λ bs st''. Leads-refl st''.world.store) st' _
            (collect-Moves _ (make_task-Moves o c event event_id round_id) plans st'))
        _ (make_task-Counts plan st h)

  start_round-Counts :
      (st : Stage) → Has event_id st → Counts event_id (start_round o c event event_id round_id st)
  unfolding start_round
  start_round-Counts st h =
      let (p, ps, same) = build_task_plans-cons event in
      and_then-Counts _ (run_tasks-Moves o c event event_id round_id) _ (
        rw same (collect-Counts p ps _ (Leads-Has event_id (mark_event-Moves o c event_id _ st) h)))

error_of-Counts :
    (event_id : String) {A : Type 0} (r : Stage × Result A)
    → Counts event_id r
    → 1 ≤ task_count event_id (error_of r).0.world.store
error_of-Counts event_id (st, ok a) h = h
error_of-Counts event_id (st, err e) h = h

worked_cons : {A : Type 0} (rows : List A) → 1 ≤ length rows → is_empty rows ≡ false
worked_cons [] h = absurd (omega arith)
worked_cons (a ∷ rows) h = refl

module _ (o : Outside) (c : Crew) (event_id : String) (st : Stage) {event : Event}
    (there : get st.world.store.events event_id ≡ some event)
    (idle : has_worked o c event_id st.world.store ≡ false) where
  abbrev pub first_run : Stage
  first_run = (run_agent_workflow o c event_id st).0

  has_worked-first_run : has_worked o c event_id first_run.world.store ≡ true
  unfolding list_tasks
  has_worked-first_run =
      let counted = error_of-Counts event_id _ (
        start_round-Counts o c event event_id (first_non_zero event.current_round 1) st
          (event, there)) in
      let after =
        subst (λ (r : Stage × Option String). 1 ≤ task_count event_id r.0.world.store)
          (sym (run_agent_workflow-started o c event_id st there idle)) counted in
      rw (worked_cons _ after) refl

  -- After RunAgentWorkflow on an event that is there and has neither tasks nor executions, a second
  -- RunAgentWorkflow on it leaves all tasks, actions, commands and executions of the store as they
  -- are.
  pub run_agent_workflow-again :
      SameWork first_run.world.store (run_agent_workflow o c event_id first_run).0.world.store
  run_agent_workflow-again = run_agent_workflow-SameWork o c event_id first_run has_worked-first_run
