-- ===== src/Api/Hooks.antt =====
-- internal/httpapi/socketio_broadcast_hooks.go, internal/httpapi/driving_mode_hooks.go and
-- internal/httpapi/server.go: what is wrapped around a handler. A recorder keeps the reply until the
-- hook is done, and then passes it on as it is.
use traffic_analysis.Base.{
  Bool, not, ◌&&◌, String, Option, none, some, List, [], ◌∷◌, ◌==◌, leb, ltb, if◌then◌else◌,
}
use traffic_analysis.Value.{Value, Fields, nil, str, obj, end, field, at}
use traffic_analysis.Hub.{Hub}
use traffic_analysis.Realtime.{broadcast_message, broadcast_execution_update}
use traffic_analysis.Driving.{first_string, automate}
use traffic_analysis.Api.{Request, Reply, Site, Server, no_body}
use traffic_analysis.Api.Encode.{body_fields}

abbrev pub Handler : Type 0
Handler = Request → Server → Server × Reply

abbrev event_id_keys : List String
event_id_keys = "event_id" ∷ "eventId" ∷ "eventID" ∷ []

-- eventIDFromRequestBody, of what Unmarshal gave
unfoldable pub event_id_from_request_body : Option Fields → String
event_id_from_request_body none = ""
event_id_from_request_body (some m) = first_string m event_id_keys

unfoldable mutual
  pub event_id_from_any : Value → String
  event_id_from_any (obj m) =
      let id = first_string m event_id_keys in
      let inner = event_id_of_message m in if id == "" then inner else id
  event_id_from_any _ = ""

  -- The id of the map under "message".
  pub event_id_of_message : Fields → String
  event_id_of_message end = ""
  event_id_of_message (field k v m) =
      let id = event_id_from_any v in
      let rest = event_id_of_message m in if k == "message" then id else rest

abbrev data_or : Fields → Value → Value
data_or m nil = obj m
data_or m v = v

-- The payload of messagePayloadFromResponse, none for nil.
unfoldable pub payload_from_response : Option Fields → Option Value
payload_from_response none = none
payload_from_response (some m) = some (data_or m (at m "data"))

abbrev id_of_payload : Option Value → String
id_of_payload none = ""
id_of_payload (some v) = event_id_from_any v

-- messagePayloadFromResponse
unfoldable pub message_payload_from_response : Option Fields → Option Value × String
unfolding payload_from_response
message_payload_from_response envelope =
    let payload = payload_from_response envelope in (payload, id_of_payload payload)

unfoldable pub on_publisher : (Option Hub → Option Hub) → Server → Server
on_publisher change s = record s {
  desk = record s.desk {
    stage = record s.desk.stage { publisher = change s.desk.stage.publisher };
  };
}

unfoldable pub is_success : Reply → Bool
is_success reply = leb 200 reply.code && ltb reply.code 300

-- realtime.BroadcastMessage where there are an id and a payload.
unfoldable pub announce : String → Option Value → Server → Server
announce event_id none s = s
announce event_id (some payload) s =
    if event_id == "" then s else on_publisher (broadcast_message event_id payload) s

abbrev pub or_text : String → String → String
or_text a b = if a == "" then b else a

abbrev updated_payload : String → Option Value → Value
updated_payload event_id none =
    obj (field "event_id" (str event_id) (field "status" (str "updated") end))
updated_payload event_id (some payload) = payload

module _ (x : Site) where
  unfoldable pub requested_event_id : Request → String
  requested_event_id r =
      or_text (r.path_value "event_id")
        (if r.body == "" then "" else event_id_from_request_body (x.unmarshal r.body))

  unfoldable pub after_message : String → Server × Reply → Server × Reply
  after_message event_id (s, reply) =
      let (payload, resolved) = message_payload_from_response (body_fields x reply.body) in
      (if is_success reply then announce (or_text event_id resolved) payload s else s, reply)

  unfoldable pub with_new_message_broadcast : Handler → Handler
  with_new_message_broadcast next r s = after_message (requested_event_id r) (next r s)

  unfoldable pub after_execution : String → Server × Reply → Server × Reply
  after_execution event_id (s, reply) =
      let payload = (message_payload_from_response (body_fields x reply.body)).0 in
      (
        if is_success reply && not (event_id == "")
            then on_publisher
                (broadcast_execution_update event_id (updated_payload event_id payload)) s
            else s,
        reply,
      )

  unfoldable pub with_execution_update_broadcast : Handler → Handler
  with_execution_update_broadcast next r s = after_execution (r.path_value "event_id") (next r s)

  unfoldable pub after_creation : Request → Server × Reply → Server × Reply
  after_creation r (s, reply) = (
    record s {
      desk =
          automate x.backend x.outside x.crew r.path (x.unmarshal r.body) reply.code
            (body_fields x reply.body) s.desk;
    },
    reply,
  )

  unfoldable pub with_driving_mode_automation : Handler → Handler
  with_driving_mode_automation next r s = after_creation r (next r s)

-- A preflight request is answered without the handler.
unfoldable pub with_cors : Handler → Handler
with_cors next r s =
    if r.method == "OPTIONS" then (s, record { code = 204; body = no_body }) else next r s
