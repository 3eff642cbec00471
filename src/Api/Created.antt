-- ===== src/Api/Created.antt =====
-- internal/httpapi/server.go, internal/service/services.go and internal/service/agents.go: an event
-- that a request creates is worked on to the end of its round, where driving mode asks for it.
use traffic_analysis.Base.{
  ◌+◌, false, String, none, some, List, [], ◌==◌, if◌then◌else◌, ◌≡◌, ◌≢◌, refl, ◌∙◌, arith, ap,
  eq_iff, if-false, inl, inr, Option-cases,
}
use traffic_analysis.Store.Work.{list_tasks, list_executions}
use traffic_analysis.Dict.{Dict, get, is_some}
use traffic_analysis.Value.{Fields, at, as_string}
use traffic_analysis.Domain.{Event, Task, Execution}
use traffic_analysis.Store.{MemoryStore, Result, ok}
use traffic_analysis.Store.Events.{get_event, create_event, created_event}
use traffic_analysis.Store.Events.Laws.{key, stored, create_event_free, get_event-create_event}
use traffic_analysis.Store.Rows.{rows_of}
use traffic_analysis.Store.Rows.Linked.{IsLinked}
use traffic_analysis.Store.Trace.{step, adds_message, creates_event}
use traffic_analysis.Store.Trace.Frame.{events-step, tasks_by_event-step, exec_by_event-step}
use traffic_analysis.Store.Trace.Linked.{IsLinkedStore}
use traffic_analysis.Service.{Outside, World, notify_created, notification}
use traffic_analysis.Service.Create.{requested_event, finish_request, create_event_from_request}
use traffic_analysis.Service.Agents.{Crew}
use traffic_analysis.Service.Agents.Calls.{store-publish}
use traffic_analysis.Service.Agents.Workflow.{has_worked}

module _ (o : Outside) (body : Fields) (w : World) where
  abbrev asked_id : String
  asked_id =
      let given = as_string (at body "event_id") in
      if given == "" then o.new_id w.readings "evt" else given

  abbrev pub created_key : String
  created_key =
      key (o.now (w.readings + 1)) (o.new_id (w.readings + 1) "evt") (requested_event asked_id body)
        w.store

  abbrev pub created_one : Event
  created_one =
      stored (o.now (w.readings + 1)) (o.new_id (w.readings + 1) "evt")
        (requested_event asked_id body) w.store

  abbrev pub with_event : World
  with_event = record w {
    store =
        (create_event (o.now (w.readings + 1)) (o.new_id (w.readings + 1) "evt")
          (requested_event asked_id body) w.store).0;
    readings = w.readings + 2;
  }

  abbrev pub finished_world : World
  finished_world = (finish_request o with_event (ok created_one)).0

  module _ (free : get w.store.events created_key ≡ none)
      (said : as_string (at body "message") ≢ "") where
    pub create_event_from_request_free :
        create_event_from_request o body w ≡ finish_request o with_event (ok created_one)
    unfolding create_event_from_request
    create_event_from_request_free =
        let given : (as_string (at body "message") == "") ≡ false =
          ground (arith, eq_iff (as_string (at body "message")) "") in
        if-false _ _ given
        ∙ ap (λ (p : MemoryStore × Result Event). finish_request o with_event p.1)
            (create_event_free (o.now (w.readings + 1)) (o.new_id (w.readings + 1) "evt")
              (requested_event asked_id body) w.store free)

module _ (o : Outside) (c : Crew) (e : Event) (w : World) where
  abbrev finished : World
  finished = (finish_request o w (ok e)).0

  -- What is said and published of a new event leaves the events and the rows of work alone.
  pub finish_request-same :
      (finished.store.events ≡ w.store.events)
      × (finished.store.tasks_by_event ≡ w.store.tasks_by_event)
      × (finished.store.exec_by_event ≡ w.store.exec_by_event)
  unfolding finish_request notify_created step
  finish_request-same =
      let says =
        adds_message (o.now (w.readings + 1)) (o.new_id w.readings "msg")
          (notification o w.readings e) in
      rw (store-publish o c) (
        events-step says w.store refl,
        tasks_by_event-step says w.store refl,
        exec_by_event-step says w.store refl,
      )

-- The rows of an event that is not there are none.
rows_of-IsLinked :
    {A : Type 0} (id : A → String) (s : MemoryStore) {m : Dict (List A)} (k : String)
    → IsLinked id s.events m
    → get s.events k ≡ none
    → rows_of m k ≡ []
unfolding rows_of
rows_of-IsLinked id s {m} k v missing = elim (Option-cases (get m k)) [
  | inl e ↦ rw e refl
  | inr (rows, e) ↦ absurd (cc (v.known k rows e, ap is_some missing))
]

module _ (o : Outside) (c : Crew) (body : Fields) (w : World) (v : IsLinkedStore w.store)
    (free : get w.store.events (created_key o body w) ≡ none) where
  pub get-finished_world :
      get (finished_world o body w).store.events (created_key o body w)
      ≡ some (created_one o body w)
  unfolding get_event created_event
  get-finished_world =
      rw ((finish_request-same o c (created_one o body w) (with_event o body w)).0) (
        get_event-create_event (o.now (w.readings + 1)) (o.new_id (w.readings + 1) "evt")
          (requested_event (asked_id o body w) body) w.store free)

  pub finished_world-has_worked :
      has_worked o c (created_key o body w) (finished_world o body w).store ≡ false
  unfolding list_tasks list_executions step
  finished_world-has_worked =
      let creates =
        creates_event (o.now (w.readings + 1)) (o.new_id (w.readings + 1) "evt")
          (requested_event (asked_id o body w) body) in
      let (_, no_tasks, no_executions) =
        finish_request-same o c (created_one o body w) (with_event o body w) in
      rw
        (
          no_tasks,
          no_executions,
          tasks_by_event-step creates w.store refl,
          exec_by_event-step creates w.store refl,
          rows_of-IsLinked (λ (t : Task). t.event_id) w.store (created_key o body w) v.tasks free,
          rows_of-IsLinked (λ (e : Execution). e.event_id) w.store (created_key o body w)
              v.executions free,
        )
        refl
