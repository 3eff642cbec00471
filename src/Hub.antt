-- ===== src/Hub.antt =====
-- internal/socketio/hub.go: sessions, rooms and queues. A *Session is named by its SID, which is
-- drawn at random for each; `objects` holds the Session structs that were allocated, also those
-- that the hub no longer lists. Each method that takes the hub's lock is one step. What a WebSocket
-- was sent is kept in `written`.
pub mod Queue
pub mod Rooms
pub mod Packets
pub mod Polling
pub mod Steps
use traffic_analysis.Base.{
  ℕ, Bool, true, false, ◌||◌, String, Option, none, some, List, [], ◌∷◌, ◌++◌, ◌==◌, if◌then◌else◌,
  length, ltb, keep_if, not, any,
}
use traffic_analysis.Dict.{Dict, get, put, delete, keys, get_or, is_some}
use traffic_analysis.Value.{Value}

-- A packet to a client: "3", "40" with the session's id, or "42" with an event and its data.
pub data Packet : Type 0 where
  pong : Packet
  connected : String → Packet
  emitted : String → Value → Packet

pub record Session : Type 0 where
  pub sid : String
  pub rooms : Dict Bool
  pub queue : List Packet
  pub has_ws : Bool
  pub written : List Packet

-- `rooms` has the SIDs of the sessions in a room: the keys of Go's inner map.
pub record Hub : Type 0 where
  pub objects : Dict Session
  pub sessions : Dict Bool
  pub rooms : Dict (List String)

unfoldable pub new_hub : Hub
new_hub = record { objects = []; sessions = []; rooms = [] }

abbrev pub capacity : ℕ
capacity = 256

-- The channel takes a packet while it has room, and drops it otherwise.
unfoldable pub enqueue : Packet → Session → Session
enqueue packet s =
    if ltb (length s.queue) capacity then record s { queue = s.queue ++ packet ∷ [] } else s

-- The queue, and the WebSocket where there is one.
unfoldable pub deliver : Packet → Session → Session
unfolding enqueue
deliver packet s =
    let s' = enqueue packet s in
    if s'.has_ws then record s' { written = s'.written ++ packet ∷ [] } else s'

unfoldable pub on_object : (Session → Session) → String → Dict Session → Dict Session
on_object change sid objects = elim (get objects sid) [
  | none ↦ objects
  | some s ↦ put objects sid (change s)
]

unfoldable pub blank_session : String → Session
blank_session sid = record { sid = sid; rooms = []; queue = []; has_ws = false; written = [] }

unfoldable pub new_session : String → Hub → Hub
unfolding blank_session
new_session sid h = record h {
  objects = put h.objects sid (blank_session sid);
  sessions = put h.sessions sid true;
}

unfoldable pub get_session : Hub → String → Bool
get_session h sid = is_some (get h.sessions sid)

unfoldable pub has_sid : String → List String → Bool
unfolding any
has_sid sid members = any (λ j. j == sid) members

unfoldable pub without_sid : String → List String → List String
unfolding keep_if
without_sid sid members = keep_if (λ j. not (j == sid)) members

unfoldable pub with_sid : String → List String → List String
unfolding has_sid
with_sid sid members = if has_sid sid members then members else members ++ sid ∷ []

unfoldable pub members_of : Hub → String → List String
members_of h room = get_or [] (get h.rooms room)

unfoldable pub enter : String → Session → Session
enter room s = record s { rooms = put s.rooms room true }

unfoldable pub exit : String → Session → Session
exit room s = record s { rooms = delete s.rooms room }

unfoldable pub join_room : String → String → Hub → Hub
unfolding on_object enter with_sid members_of
join_room sid room h = record h {
  objects = on_object (enter room) sid h.objects;
  rooms = put h.rooms room (with_sid sid (members_of h room));
}

-- delete(h.rooms[room], sid), which does nothing for a room that is not there.
unfoldable pub drop_member : String → String → Dict (List String) → Dict (List String)
drop_member sid room rooms = elim (get rooms room) [
  | none ↦ rooms
  | some members ↦ put rooms room (without_sid sid members)
]

unfoldable pub leave_room : String → String → Hub → Hub
unfolding on_object exit
leave_room sid room h = record h {
  objects = on_object (exit room) sid h.objects;
  rooms = drop_member sid room h.rooms;
}

-- The loop over the session's rooms; the order does not matter.
unfoldable pub drop_from : String → List String → Dict (List String) → Dict (List String)
drop_from sid [] rooms = rooms
drop_from sid (room ∷ rest) rooms = drop_from sid rest (drop_member sid room rooms)

abbrev rooms_of_object : Option Session → List String
rooms_of_object none = []
rooms_of_object (some s) = keys s.rooms

unfoldable pub remove_session : String → Hub → Hub
remove_session sid h = elim (get h.sessions sid) [
  | none ↦ h
  | some listed ↦ record h {
    rooms = drop_from sid (rooms_of_object (get h.objects sid)) h.rooms;
    sessions = delete h.sessions sid;
  }
]

unfoldable pub deliver_all : Packet → List String → Dict Session → Dict Session
deliver_all packet [] objects = objects
deliver_all packet (sid ∷ sids) objects =
    deliver_all packet sids (on_object (deliver packet) sid objects)

unfoldable pub broadcast : String → String → Value → Hub → Hub
broadcast room event payload h = record h {
  objects = deliver_all (emitted event payload) (members_of h room) h.objects;
}

-- Emit: to every session that the hub lists.
unfoldable pub emit : String → Value → Hub → Hub
emit event payload h = record h {
  objects = deliver_all (emitted event payload) (keys h.sessions) h.objects;
}

unfoldable pub emit_to_session : String → String → Value → Hub → Hub
emit_to_session sid event payload h = record h {
  objects = on_object (deliver (emitted event payload)) sid h.objects;
}
