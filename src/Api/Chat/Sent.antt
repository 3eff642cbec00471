-- ===== src/Api/Chat/Sent.antt =====
-- internal/httpapi/server.go and internal/httpapi/socketio_broadcast_hooks.go:
-- POST /api/event/send_message/{event_id}.
use traffic_analysis.Base.{
  false, String, some, [], ◌∷◌, ◌++◌, ◌==◌, ◌≡◌, ◌≢◌, refl, ◌∙◌, arith, ap, eq_iff, if-false,
}
use traffic_analysis.Dict.{get}
use traffic_analysis.Value.{Fields, obj, at}
use traffic_analysis.Domain.{Event, Message}
use traffic_analysis.Store.{ok}
use traffic_analysis.Realtime.{broadcast_message}
use traffic_analysis.Api.{
  Request, Site, Server, message, store_of, success_reply, on_decoded_ok, after,
}
use traffic_analysis.Api.Encode.{body_fields, message_fields, unless_empty, data_field}
use traffic_analysis.Api.Events.{store_message, user_message, sent_reply, send_event_message}
use traffic_analysis.Api.Hooks.{
  after_message, announce, requested_event_id, with_new_message_broadcast, on_publisher, is_success,
  message_payload_from_response, payload_from_response, event_id_from_any,
}
use traffic_analysis.Api.Routes.{handler_of, post_send_message}
use traffic_analysis.Api.Chat.{rows, kept, rows-store_message, store_message_there}

-- A reply with a message makes the hook broadcast it.
after_message-message :
    (x : Site) (event_id : String) (s : Server) (m : Message)
    → event_id ≢ ""
    → after_message x event_id (s, success_reply "" (message m)) ≡ (
      on_publisher (broadcast_message event_id (obj (message_fields x.outside.format m))) s,
      success_reply "" (message m),
    )
unfolding after_message announce is_success message_payload_from_response payload_from_response
    body_fields success_reply unless_empty data_field at
after_message-message x event_id s m named =
    let payload = obj (message_fields x.outside.format m) in
    let given : (event_id == "") ≡ false = ground (arith, eq_iff event_id "") in
    let chosen = if-false (event_id_from_any payload) event_id given in
    ap (λ id. (announce id (some payload) s, success_reply "" (message m))) chosen
    ∙ ap (λ s'. (s', success_reply "" (message m)))
        (if-false s (on_publisher (broadcast_message event_id payload) s) given)

module _ (x : Site) (r : Request) (s : Server) {body : Fields}
    (decodes : x.decode_map r.body ≡ ok body) (named : r.path_value "event_id" ≢ "") where
  abbrev id : String
  id = r.path_value "event_id"

  abbrev sending : Message
  sending = user_message x id body

  abbrev sent : Message
  sent = kept x sending s

  requested_event_id-path : requested_event_id x r ≡ id
  unfolding requested_event_id
  requested_event_id-path = if-false _ id {b = id == ""} (ground (arith, eq_iff id ""))

  module _ {e : Event} (there : get (store_of s).events id ≡ some e) where
    send_event_message_there :
        send_event_message x r s ≡ ((store_message x sending s).0, success_reply "" (message sent))
    unfolding send_event_message sent_reply user_message
    send_event_message_there =
        let stored = store_message_there x sending s there in
        on_decoded_ok s _ decodes ∙ ap (sent_reply x) stored ∙ rw stored refl

    sent_lem : handler_of x post_send_message r s ≡ (
      on_publisher
          (broadcast_message id (obj (message_fields x.outside.format sent)))
          (store_message x sending s).0,
      success_reply "" (message sent),
    )
    unfolding handler_of with_new_message_broadcast
    sent_lem =
        ap (λ given. after_message x given (send_event_message x r s)) requested_event_id-path
        ∙ ap (after_message x id) send_event_message_there
        ∙ after_message-message x id (store_message x sending s).0 sent named

    -- A message to an event that is there is answered with 200, is added at the end of the event's
    -- messages as it is stored, and is broadcast, as it is stored, in the event's room.
    pub handler_of-sent :
        ((handler_of x post_send_message r s).1.code ≡ 200)
        × (rows (handler_of x post_send_message r s).0 id ≡ rows s id ++ sent ∷ [])
        × ((handler_of x post_send_message r s).0.desk.stage.publisher
            ≡ broadcast_message id
                (obj (message_fields x.outside.format sent))
                s.desk.stage.publisher)
    unfolding on_publisher success_reply user_message after
    handler_of-sent =
        let stored = store_message_there x sending s there in
        let same_hub : (store_message x sending s).0.desk.stage.publisher ≡ s.desk.stage.publisher =
          rw stored refl in
        rw sent_lem (
          refl,
          rows-store_message x sending s there,
          ap (broadcast_message id (obj (message_fields x.outside.format sent))) same_hub,
        )
