-- ===== src/Tests/Routes.antt =====
-- Requests by their route.
use traffic_analysis.Base.{
  true, false, ◌||◌, String, none, some, [], ◌∷◌, ◌++◌, ◌≡◌, ◌≢◌, refl, arith, eq_iff,
}
use traffic_analysis.Base.Text.{trim_space}
use traffic_analysis.Dict.{get}
use traffic_analysis.Value.{at, as_string, obj}
use traffic_analysis.Domain.{Event}
use traffic_analysis.Store.{ok, err, new_memory_store, default_text}
use traffic_analysis.Store.Trace.{run}
use traffic_analysis.Store.Trace.Linked.{IsLinkedStore, run-new_memory_store-IsLinkedStore}
use traffic_analysis.Realtime.{broadcast_message}
use traffic_analysis.Driving.{should_auto_drive_created_event, bool_request_value}
use traffic_analysis.Service.Create.{requested_event}
use traffic_analysis.Api.{Request, Server, new_server, store_of, write_error, text_at, json_text}
use traffic_analysis.Api.Encode.{message_fields}
use traffic_analysis.Api.Routes.{
  handler_of, serve, get_event_messages, post_event_push, post_create_event, post_send_message,
}
use traffic_analysis.Api.Events.{user_message}
use traffic_analysis.Api.Engineer.{engineer_chat_send}
use traffic_analysis.Api.Served.Reads.{writes, serve-reads}
use traffic_analysis.Api.Served.Whole.{serve-IsLinkedStore, serve-Keeps}
use traffic_analysis.Api.{new_server}
use traffic_analysis.Store.{new_memory_store}
use traffic_analysis.Store.Trace.{run}
use traffic_analysis.Store.Events.Laws.{Keeps}
use traffic_analysis.Store.Trace.Linked.{IsLinkedStore, run-new_memory_store-IsLinkedStore}
use traffic_analysis.Api.Guarded.{handler_of-refused}
use traffic_analysis.Api.Created.{created_key}
use traffic_analysis.Api.Driven.{handler_of-driven}
use traffic_analysis.Api.Chat
use traffic_analysis.Api.Chat.{rows, kept}
use traffic_analysis.Api.Chat.Asked.{engineer_chat_send-rows}
use traffic_analysis.Api.Chat.Sent.{handler_of-sent}
use traffic_analysis.Tests.{outside, world, event_of}
use traffic_analysis.Tests.Agents.{idle}
use traffic_analysis.Tests.Api.{body_of, site, request, server}

get_event_messages-reads : writes get_event_messages ≡ false
unfolding writes
get_event_messages-reads = refl

serve-reads_example :
    (store_of (serve site get_event_messages (request "" "e1" "") server).0 ≡ store_of server)
    × ((serve site get_event_messages (request "" "e1" "") server).0.tokens ≡ server.tokens)
serve-reads_example =
    serve-reads site get_event_messages (request "" "e1" "") server get_event_messages-reads

serve-IsLinkedStore_example :
    IsLinkedStore (store_of (serve site post_create_event (request "" "" "scan") server).0)
unfolding new_memory_store run new_server
serve-IsLinkedStore_example =
    serve-IsLinkedStore site post_create_event (request "" "" "scan") server
      (run-new_memory_store-IsLinkedStore 1 [])

abbrev key : String
key = "key"

key-ne-empty : key ≢ ""
key-ne-empty = ground (arith, eq_iff key "")

other_key : (request "" "" "").header "X-API-Key" ≢ key
other_key = ground (arith, eq_iff "" key)

handler_of-refused_example :
    handler_of site post_event_push (request "" "" "") server
    ≡ (server, write_error 401 "UNAUTHORIZED")
handler_of-refused_example =
    handler_of-refused site (request "" "" "") server key-ne-empty other_key

abbrev scan : String
scan = "scan"

scan-ne-empty : scan ≢ ""
scan-ne-empty = ground (arith, eq_iff scan "")

said : as_string (at (body_of scan) "message") ≢ ""
unfolding as_string at
said = scan-ne-empty

free : get (store_of server).events (created_key outside (body_of scan) world) ≡ none
unfolding get new_server new_memory_store
free = refl

created_key-e1 : created_key outside (body_of scan) world ≡ "e1"
unfolding requested_event as_string at default_text
created_key-e1 = refl

named : created_key outside (body_of scan) world ≢ ""
named = rw created_key-e1 (ground (arith, eq_iff "e1" ""))

driving :
    (server.desk.driving
      || should_auto_drive_created_event "/api/event/create" (some (body_of scan)))
    ≡ true
unfolding should_auto_drive_created_event bool_request_value at new_server
driving = refl

server-IsLinkedStore : IsLinkedStore (store_of server)
unfolding run new_server
server-IsLinkedStore = run-new_memory_store-IsLinkedStore 1 []

handler_of-driven_example :
    ((handler_of site post_create_event (request "" "" scan) server).1.code ≡ 200)
    × ((handler_of site post_create_event (request "" "" scan) server).0.desk.driving ≡ true)
    × ((e : Event) × (get
            (store_of (handler_of site post_create_event (request "" "" scan) server).0).events
            (created_key outside (body_of scan) world)
          ≡ some e)
        × (e.event_status ≡ "round_finished"))
unfolding new_server
handler_of-driven_example =
    handler_of-driven site (request "" "" scan) server refl said free server-IsLinkedStore named
      refl driving

-- A server that has the event "e1".
abbrev busy : Server
busy = new_server idle.world none

busy_event : get (store_of busy).events "e1" ≡ some (event_of "e1")
unfolding get new_server
busy_event = refl

serve-Keeps_example :
    Keeps
      (store_of (serve site post_create_event (request "" "" "scan") busy).0)
      "e1"
      (event_of "e1")
serve-Keeps_example =
    serve-Keeps site post_create_event (request "" "" "scan") busy "e1" (event_of "e1") busy_event

e1-ne-empty : text_at site (body_of scan) "event_id" ≢ ""
unfolding text_at json_text at
e1-ne-empty = ground (arith, eq_iff "e1" "")

e1_there :
    get (store_of busy).events (text_at site (body_of scan) "event_id") ≡ some (event_of "e1")
unfolding text_at json_text at
e1_there = busy_event

scan_asks : trim_space (text_at site (body_of scan) "message") ≢ ""
unfolding text_at json_text at trim_space
scan_asks = scan-ne-empty

abbrev asks : Request
asks = request "" "" scan

engineer_chat_send-rows_example :
    ((text : String)
      → Chat.said site "e1" scan busy busy_event ≡ err text
      → ((engineer_chat_send site asks busy).1.code ≡ 502)
        × (rows (engineer_chat_send site asks busy).0 "e1"
            ≡ rows busy "e1" ++ kept site (Chat.asking site "e1" scan busy busy_event) busy ∷ []))
    × ((reply : String)
        → Chat.said site "e1" scan busy busy_event ≡ ok reply
        → ((engineer_chat_send site asks busy).1.code ≡ 200)
          × (rows (engineer_chat_send site asks busy).0 "e1"
              ≡ rows busy "e1"
                ++ kept site (Chat.asking site "e1" scan busy busy_event) busy
                  ∷ kept site
                      (Chat.answering site "e1" scan busy busy_event reply)
                      (Chat.waiting site "e1" scan busy busy_event)
                  ∷ []))
unfolding text_at json_text at
engineer_chat_send-rows_example =
    engineer_chat_send-rows site asks busy refl e1_there e1-ne-empty scan_asks

abbrev e1 : String
e1 = "e1"

e1_path : e1 ≢ ""
e1_path = ground (arith, eq_iff e1 "")

handler_of-sent_example :
    ((handler_of site post_send_message (request "" e1 scan) busy).1.code ≡ 200)
    × (rows (handler_of site post_send_message (request "" e1 scan) busy).0 e1
        ≡ rows busy e1 ++ kept site (user_message site e1 (body_of scan)) busy ∷ [])
    × ((handler_of site post_send_message (request "" e1 scan) busy).0.desk.stage.publisher
        ≡ broadcast_message e1
            (obj (
              message_fields outside.format (kept site (user_message site e1 (body_of scan)) busy)))
            busy.desk.stage.publisher)
handler_of-sent_example = handler_of-sent site (request "" e1 scan) busy refl e1_path busy_event
