-- ===== src/Api/Driven.antt =====
-- internal/httpapi/server.go and internal/httpapi/driving_mode_hooks.go: POST /api/event/create from
-- the request to the end of the event's round.
use traffic_analysis.Base.{
  true, false, not, ◌||◌, ◌&&◌, String, Option, none, some, ◌==◌, ltb, leb, ◌≡◌, ◌≢◌, refl, ◌∙◌,
  arith, ap, eq_iff, if-false,
}
use traffic_analysis.Dict.{get}
use traffic_analysis.Value.{Fields, at, as_string, obj}
use traffic_analysis.Domain.{Event}
use traffic_analysis.Store.{ok}
use traffic_analysis.Store.Events.{created_event}
use traffic_analysis.Store.Trace.Linked.{IsLinkedStore}
use traffic_analysis.Service.Create.{finish_request}
use traffic_analysis.Service.Agents.{Stage}
use traffic_analysis.Service.Agents.Workflow.{run_agent_workflow}
use traffic_analysis.Service.Agents.Finish.{run_agent_workflow_finished}
use traffic_analysis.Driving.{
  automate, created_event_id, driving_event_from_response, event_in, first_string, id_keys,
  should_auto_drive_created_event,
}
use traffic_analysis.Driving.Laws.{automate-driving}
use traffic_analysis.Api.{Request, Site, Server, event, store_of, success_reply, on_decoded_ok}
use traffic_analysis.Api.Encode.{body_fields, unless_empty, data_field, event_fields}
use traffic_analysis.Api.Events.{in_world, handle_create_event, created_event_reply}
use traffic_analysis.Api.Hooks.{after_creation, with_driving_mode_automation}
use traffic_analysis.Api.Routes.{handler_of, post_create_event}
use traffic_analysis.Api.Created.{
  created_key, created_one, create_event_from_request_free, finished_world, get-finished_world,
  finished_world-has_worked,
}

module _ (x : Site) where
  event_in-first_string :
      (m : Fields) (id : String) → first_string m id_keys ≡ id → id ≢ "" → event_in (obj m) ≡ id
  unfolding event_in
  event_in-first_string m id first named =
      if-false _ (first_string m id_keys) {b = first_string m id_keys == ""}
        (ground (arith, eq_iff (first_string m id_keys) ""))
      ∙ first

  first_string-event_fields :
      (e : Event)
      → e.event_id ≢ ""
      → first_string (event_fields x.outside.format e) id_keys ≡ e.event_id
  unfolding event_fields first_string at
  first_string-event_fields e named =
      if-false _ e.event_id {b = e.event_id == ""} (ground (arith, eq_iff e.event_id ""))

  -- The automation finds the id of an event in the reply that has the event as its data.
  driving_event_from_response-event :
      (e : Event)
      → e.event_id ≢ ""
      → driving_event_from_response (body_fields x (success_reply "事件创建成功" (event e)).body)
        ≡ e.event_id
  unfolding driving_event_from_response body_fields success_reply unless_empty data_field at
  driving_event_from_response-event e named =
      event_in-first_string (event_fields x.outside.format e) e.event_id
        (first_string-event_fields e named) named

  module _ (r : Request) (s : Server) {body : Fields} (decodes : x.decode_map r.body ≡ ok body)
      (said : as_string (at body "message") ≢ "") where
    abbrev created_id : String
    created_id = created_key x.outside body s.desk.stage.world

    abbrev created_here : Event
    created_here = created_one x.outside body s.desk.stage.world

    module _ (free : get (store_of s).events created_id ≡ none) where
      abbrev created_server : Server
      created_server = in_world (finished_world x.outside body s.desk.stage.world) s

      handle_create_event_free :
          handle_create_event x r s ≡ (created_server, success_reply "事件创建成功" (event created_here))
      unfolding handle_create_event created_event_reply finish_request
      handle_create_event_free =
          rw
            (
              on_decoded_ok s _ decodes,
              create_event_from_request_free x.outside body s.desk.stage.world free said,
            )
            refl

      module _ (v : IsLinkedStore (store_of s)) (named : created_id ≢ "")
          (no_database : x.backend.has_database ≡ false)
          (on : (s.desk.driving || should_auto_drive_created_event r.path (x.unmarshal r.body))
            ≡ true) where
        answer : Option Fields
        answer = body_fields x (success_reply "事件创建成功" (event created_here)).body

        created_event_id-answer :
            created_event_id x.backend x.outside x.crew (x.unmarshal r.body) answer ≡ created_id
        unfolding created_event answer
        created_event_id-answer =
            let found = driving_event_from_response-event created_here named in
            rw found (
              if-false _ created_here.event_id {b = created_here.event_id == ""}
                (ground (arith, eq_iff created_here.event_id "")))

        abbrev driven : Stage
        driven = (run_agent_workflow x.outside x.crew created_id created_server.desk.stage).0

        automated :
            automate x.backend x.outside x.crew r.path
              (x.unmarshal r.body)
              200
              answer
              created_server.desk
            ≡ record s.desk { driving = true; stage = driven }
        unfolding in_world
        automated =
            let same = created_event_id-answer in
            let answered : (leb 200 200
                  && ltb 200 300
                  && not (
                      created_event_id x.backend x.outside x.crew (x.unmarshal r.body) answer
                      == ""))
                ≡ true =
              rw same (ground (arith, eq_iff created_id "")) in
            (automate-driving x.backend x.outside x.crew no_database r.path (x.unmarshal r.body)
                answer 200 created_server.desk answered).1
              on
            ∙ ap
                (λ id. record s.desk {
                  driving = true;
                  stage = (run_agent_workflow x.outside x.crew id created_server.desk.stage).0;
                })
                same

        served : Server
        served = record s { desk = record s.desk { driving = true; stage = driven } }

        handler_of-created :
            handler_of x post_create_event r s
            ≡ (served, success_reply "事件创建成功" (event created_here))
        unfolding handler_of with_driving_mode_automation after_creation served answer success_reply
            in_world
        handler_of-created =
            ap (after_creation x r) handle_create_event_free
            ∙ ap (λ d. (record s { desk = d }, success_reply "事件创建成功" (event created_here)))
                automated

        -- POST /api/event/create with a body that decodes and has a message, for an event whose id
        -- is not taken, where driving mode is on or the request asks for it and there is no
        -- database: the answer is 200, driving mode is on afterwards, and the event is in the store
        -- with the status of a finished round. The store is linked, and the id is not empty.
        pub handler_of-driven :
            ((handler_of x post_create_event r s).1.code ≡ 200)
            × ((handler_of x post_create_event r s).0.desk.driving ≡ true)
            × ((e : Event) × (get
                    (store_of (handler_of x post_create_event r s).0).events
                    created_id
                  ≡ some e)
                × (e.event_status ≡ "round_finished"))
        unfolding served success_reply in_world
        handler_of-driven =
            let world = s.desk.stage.world in
            let finished =
              run_agent_workflow_finished x.outside x.crew created_id created_server.desk.stage
                (get-finished_world x.outside x.crew body world v free)
                (finished_world-has_worked x.outside x.crew body world v free) in
            rw handler_of-created (refl, refl, finished.1)
