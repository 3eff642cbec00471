-- ===== src/Hub/Polling.antt =====
-- internal/socketio/hub.go: ServeHTTP, servePolling and serveWebSocket. A WebSocket is the list of
-- the messages that it brings until reading fails; its pings, and the headers, are left out.
use Prim.Native.Char.{code}
use traffic_analysis.Base.{
  ℕ, ◌+◌, Bool, true, false, not, ◌&&◌, String, Option, none, some, List, [], ◌∷◌, ◌==◌, ◌=ℕ◌,
  if◌then◌else◌,
}
use traffic_analysis.Base.Text.{trim_space}
use traffic_analysis.Dict.{get}
use traffic_analysis.Hub.{Hub, Packet, Session, new_session, get_session, remove_session}
use traffic_analysis.Hub.Queue.{drain}
use traffic_analysis.Hub.Steps.{attach_ws, poll}
use traffic_analysis.Hub.Packets.{Draws, handle_engine_packet}

pub record HubRequest : Type 0 where
  pub method : String
  pub transport : String
  pub sid : String
  pub body : String

pub data HubReply : Type 0 where
  -- 204
  no_content : HubReply
  -- "0" and the session's id
  opened : String → HubReply
  -- 400
  unknown_sid : HubReply
  -- "ok"
  posted : HubReply
  polled : Packet → List Packet → HubReply
  -- "2", for want of a packet
  pinged : HubReply
  -- 405
  not_allowed : HubReply
  -- what a WebSocket was opened with, when it is closed
  closed : String → HubReply

is_record_separator : ℕ → Bool
is_record_separator c = c =ℕ 30

-- strings.Split(s, recordSeparator): the first part and the others.
split_first : String → String × List String
unfolding is_record_separator
split_first String.[] = (String.[], [])
split_first (String.◌∷◌ c s) =
    let (part, rest) = split_first s in
    if is_record_separator (code c) then (String.[], part ∷ rest) else (String.◌∷◌ c part, rest)

unfoldable pub split_records : String → List String
unfolding split_first
split_records s = let (part, rest) = split_first s in part ∷ rest

reply_of : List Packet → HubReply
reply_of [] = pinged
reply_of (packet ∷ packets) = polled packet packets

queue_of : Option Session → List Packet
queue_of none = []
queue_of (some s) = s.queue

-- `draws` is what is drawn for a packet, by its number; `fresh` is the id of a new session, and
-- `late` is as for drain.
module _ (draws : ℕ → Draws) (fresh : String) where
  -- Each packet in its order, by a WebSocket or not.
  unfoldable pub handle_packets : Bool → ℕ → String → List String → Hub → Hub
  handle_packets by_ws n sid [] h = h
  handle_packets by_ws n sid (packet ∷ rest) h =
      handle_packets by_ws (n + 1) sid rest (handle_engine_packet (draws n) sid by_ws packet h)

  trimmed : List String → List String
  trimmed [] = []
  trimmed (packet ∷ rest) = trim_space packet ∷ trimmed rest

  unfoldable pub serve_polling : Bool → HubRequest → Hub → Hub × HubReply
  unfolding reply_of queue_of trimmed
  serve_polling late r h =
      if r.method == "GET" && r.sid == ""
      then (new_session fresh h, opened fresh)
      else if not (get_session h r.sid)
      then (h, unknown_sid)
      else if r.method == "POST"
      then (handle_packets false 0 r.sid (trimmed (split_records r.body)) h, posted)
      else if r.method == "GET"
      then (poll late r.sid h, reply_of ((drain late (queue_of (get h.objects r.sid))).0))
      else (h, not_allowed)

  -- The session that the connection names, or a new one, gets the connection; after the messages
  -- the session is removed.
  unfoldable pub serve_web_socket : List String → HubRequest → Hub → Hub × HubReply
  serve_web_socket messages r h =
      if get_session h r.sid
      then (
        remove_session r.sid (handle_packets true 0 r.sid messages (attach_ws r.sid h)),
        closed r.sid,
      )
      else (
        remove_session fresh
            (handle_packets true 0 fresh messages (attach_ws fresh (new_session fresh h))),
        closed fresh,
      )

  unfoldable pub serve_http : Bool → List String → HubRequest → Hub → Hub × HubReply
  serve_http late messages r h =
      if r.method == "OPTIONS"
      then (h, no_content)
      else if r.transport == "websocket"
      then serve_web_socket messages r h
      else serve_polling late r h
