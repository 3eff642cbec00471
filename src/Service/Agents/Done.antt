-- ===== src/Service/Agents/Done.antt =====
-- internal/service/agents.go: the steps of the workflow succeed where the event is there.
use traffic_analysis.Base.{ℕ, String, some, List, [], ◌∷◌, ◌≡◌, refl}
use traffic_analysis.Dict.{get}
use traffic_analysis.Domain.{Event, Task, Action, Command, Execution}
use traffic_analysis.Store.{MemoryStore, Result, ok, err}
use traffic_analysis.Store.Work.{add_task, add_action, add_command, add_execution, add_summary}
use traffic_analysis.Store.Trace.Leads.{Leads, Leads-Keeps}
use traffic_analysis.Service.{Outside}
use traffic_analysis.Service.Agents.{Crew, Stage}
use traffic_analysis.Service.Agents.Plans.{TaskPlan}
use traffic_analysis.Service.Agents.Steps.{
  make_task, make_action, make_command, make_execution, summarise,
}
use traffic_analysis.Service.Agents.Control.{and_then, collect}
use traffic_analysis.Service.Agents.Calls.{
  add_agent_message-Moves, mark_task-Moves, mark_action-Moves, mark_command-Moves,
}

-- The event is in the store.
abbrev pub Has : String → Stage → Type 0
Has event_id st = (e : Event) × (get st.world.store.events event_id ≡ some e)

pub Leads-Has :
    (event_id : String) {s s' : MemoryStore}
    → Leads s s'
    → ((e : Event) × (get s.events event_id ≡ some e))
    → (e : Event) × (get s'.events event_id ≡ some e)
Leads-Has event_id m (e, there) =
    let (e', at_key, same) = Leads-Keeps m event_id e there in (e', at_key)

-- The result is there, and so is the event after it.
pub record IsDone (event_id : String) {A : Type 0} (r : Stage × Result A) : Type 0 where
  pub value : A
  pub gives : r.1 ≡ ok value
  pub has : Has event_id r.0

module _ (event_id : String) {A B : Type 0} (next : A → Stage → Stage × Result B) where
  pub and_then-IsDone :
      (r : Stage × Result A)
      → IsDone event_id r
      → ((a : A) (st : Stage) → Has event_id st → IsDone event_id (next a st))
      → IsDone event_id (and_then next r)
  unfolding and_then
  and_then-IsDone (st, ok a) d then_done = then_done a st d.has
  and_then-IsDone (st, err e) d then_done = absurd (cc d.gives)

pub collect-IsDone :
    (event_id : String) {A B : Type 0} (make : A → Stage → Stage × Result B)
    → ((a : A) (st : Stage) → Has event_id st → IsDone event_id (make a st))
    → (list : List A) (st : Stage) → Has event_id st
    → IsDone event_id (collect make list st)
unfolding collect
collect-IsDone event_id make done [] st h = record { value = []; gives = refl; has = h }
collect-IsDone event_id make done (a ∷ rest) st h =
    and_then-IsDone event_id _ _ (done a st h) (λ b st' h'.
      and_then-IsDone event_id _ _ (collect-IsDone event_id make done rest st' h')
        (λ bs st'' h''. record { value = b ∷ bs; gives = refl; has = h'' }))

module _ (o : Outside) (c : Crew) (event : Event) (event_id : String) (round_id : ℕ) where
  pub make_task-IsDone :
      (plan : TaskPlan) (st : Stage)
      → Has event_id st
      → IsDone event_id (make_task o c event event_id round_id plan st)
  unfolding make_task add_task
  make_task-IsDone plan st (e, there) =
      rw (there, add_task) (record { value = _; gives = refl; has = (e, there) })

  pub make_action-IsDone :
      (task : Task) (st : Stage)
      → Has event_id st
      → IsDone event_id (make_action o c event event_id round_id task st)
  unfolding make_action add_action
  make_action-IsDone task st (e, there) =
      and_then-IsDone event_id _ _
        (rw (there, add_action) (record { value = _; gives = refl; has = (e, there) }))
        (λ action st' h. record {
          value = action;
          gives = refl;
          has = Leads-Has event_id (mark_task-Moves o c _ task st') h;
        })

  pub make_command-IsDone :
      (action : Action) (st : Stage)
      → Has event_id st
      → IsDone event_id (make_command o c event event_id round_id action st)
  unfolding make_command add_command
  make_command-IsDone action st (e, there) =
      and_then-IsDone event_id _ _
        (rw (there, add_command) (record { value = _; gives = refl; has = (e, there) }))
        (λ command st' h. record {
          value = command;
          gives = refl;
          has = Leads-Has event_id (mark_action-Moves o c _ action st') h;
        })

  pub make_execution-IsDone :
      (command : Command) (st : Stage)
      → Has event_id st
      → IsDone event_id (make_execution o c event event_id round_id command st)
  unfolding make_execution add_execution
  make_execution-IsDone command st (e, there) =
      and_then-IsDone event_id _ _
        (rw (there, add_execution) (record { value = _; gives = refl; has = (e, there) }))
        (λ exec st' h. record {
          value = exec;
          gives = refl;
          has = Leads-Has event_id (mark_command-Moves o c exec command st') h;
        })

  pub summarise-IsDone :
      (executions : List Execution) (st : Stage)
      → Has event_id st
      → IsDone event_id (summarise o c event event_id round_id executions st)
  unfolding summarise add_summary
  summarise-IsDone executions st (e, there) =
      and_then-IsDone event_id _ _
        (rw (there, add_summary) (record { value = _; gives = refl; has = (e, there) }))
        (λ sm st' h. record {
          value = sm;
          gives = refl;
          has = Leads-Has event_id (add_agent_message-Moves o c event_id _ _ round_id _ st') h;
        })
