-- ===== src/Hub/Steps.antt =====
-- internal/socketio/hub.go: the steps of a hub, and the relation between its two records of who is
-- in which room.
pub mod Consistent
pub mod Delivery
pub mod Stale
pub mod Full
use traffic_analysis.Base.{
  Bool, true, false, not, ◌&&◌, ◌||◌, String, Option, none, some, List, [], ◌∷◌, ◌++◌, ◌==◌, eq_iff,
  eq_refl, if◌then◌else◌, ◌≡◌, refl, arith, ap, ◌∙◌, sym, Option-cases, inl, inr, Bool-cases,
}
use traffic_analysis.Dict.{Dict, get, put, delete, keys, get_or, is_some}
use traffic_analysis.Dict.Laws.{get-put, get-delete}
use traffic_analysis.Value.{Value}
use traffic_analysis.Hub.{
  Hub, Session, Packet, emitted, new_hub, enqueue, deliver, on_object, new_session, get_session,
  has_sid, without_sid, with_sid, members_of, enter, exit, join_room, drop_member, drop_from,
  leave_room, remove_session, rooms_of_object, deliver_all, broadcast, emit, emit_to_session,
}
use traffic_analysis.Hub.Queue.{drain}
use traffic_analysis.Hub.Packets.{answer_packet}
use traffic_analysis.Hub.Rooms.{
  has_sid-with_sid, in_map, in_object, in_map-drop_member, in_map-drop_from, has_sid-keys,
  change_option, get-on_object,
}

-- s.WS = conn
unfoldable pub attach_ws : String → Hub → Hub
attach_ws sid h = record h { objects = on_object (λ s. record s { has_ws = true }) sid h.objects }

-- A poll: drainPackets on the session's queue.
unfoldable pub poll : Bool → String → Hub → Hub
poll late sid h = record h {
  objects = on_object (λ s. record s { queue = (drain late s.queue).1 }) sid h.objects;
}

-- The SIDs of new sessions are new. A session that joins was made, and need not be listed any more:
-- joinRoom takes a *Session, and does not ask whether the hub lists it.
pub data Step : Hub → Hub → Type 0 where
  connects : {h : Hub} (sid : String) → get h.objects sid ≡ none → Step h (new_session sid h)
  attaches : {h : Hub} (sid : String) → Step h (attach_ws sid h)
  joins :
      {h : Hub} (sid room : String)
      → is_some (get h.objects sid) ≡ true
      → Step h (join_room sid room h)
  leaves : {h : Hub} (sid room : String) → Step h (leave_room sid room h)
  removes : {h : Hub} (sid : String) → Step h (remove_session sid h)
  broadcasts :
      {h : Hub} (room event : String) (payload : Value) → Step h (broadcast room event payload h)
  emits : {h : Hub} (event : String) (payload : Value) → Step h (emit event payload h)
  emits_to :
      {h : Hub} (sid event : String) (payload : Value)
      → Step h (emit_to_session sid event payload h)
  answers :
      {h : Hub} (sid : String) (by_ws : Bool) (p : Packet) → Step h (answer_packet sid by_ws p h)
  polls : {h : Hub} (late : Bool) (sid : String) → Step h (poll late sid h)

pub data Reach : Hub → Type 0 where
  start : {h : Hub} → h ≡ new_hub → Reach h
  next : {h h' : Hub} → Reach h → Step h h' → Reach h'

abbrev pub is_member : Hub → String → String → Bool
is_member h room sid = in_map h.rooms room sid

abbrev pub is_listed : Hub → String → Bool
is_listed h sid = is_some (get h.sessions sid)

-- Who is in a room has the room in its own record; who is listed and has the room is in it.
pub record IsConsistent (h : Hub) : Type 0 where
  pub knows :
      (room sid : String) → is_member h room sid ≡ true → in_object (get h.objects sid) room ≡ true
  pub present :
      (room sid : String)
      → is_listed h sid ≡ true
      → in_object (get h.objects sid) room ≡ true
      → is_member h room sid ≡ true
  pub allocated : (sid : String) → is_listed h sid ≡ true → is_some (get h.objects sid) ≡ true

-- The same sessions, with the same rooms.
pub record SameRooms (objects objects' : Dict Session) : Type 0 where
  pub same :
      (sid room : String) → in_object (get objects' sid) room ≡ in_object (get objects sid) room
  pub alive : (sid : String) → is_some (get objects' sid) ≡ is_some (get objects sid)

pub SameRooms-IsConsistent :
    {h : Hub} {objects' : Dict Session}
    → SameRooms h.objects objects'
    → IsConsistent h
    → IsConsistent (record h { objects = objects' })
SameRooms-IsConsistent q v = record {
  knows = λ room sid m. q.same sid room ∙ v.knows room sid m;
  present = λ room sid l k. v.present room sid l (sym (q.same sid room) ∙ k);
  allocated = λ sid l. q.alive sid ∙ v.allocated sid l;
}

module _ (change : Session → Session) (keeps : (s : Session) → (change s).rooms ≡ s.rooms) where
  pub in_object-change_option :
      (o : Option Session) (room : String)
      → (in_object (change_option change o) room ≡ in_object o room)
        × (is_some (change_option change o) ≡ is_some o)
  in_object-change_option none room = (refl, refl)
  in_object-change_option (some s) room = (ap (λ m. is_some (get m room)) (keeps s), refl)

  pub on_object-SameRooms :
      (sid : String) (objects : Dict Session) → SameRooms objects (on_object change sid objects)
  on_object-SameRooms sid objects = record {
    same = λ j room.
        ground
          (arith, get-on_object change sid j objects, in_object-change_option (get objects j) room);
    alive = λ j.
        ground
          (arith, get-on_object change sid j objects, in_object-change_option (get objects j) "");
  }

pub deliver-rooms : (p : Packet) (s : Session) → (deliver p s).rooms ≡ s.rooms
unfolding deliver
deliver-rooms p s = ground arith

SameRooms-trans : {a b c : Dict Session} → SameRooms a b → SameRooms b c → SameRooms a c
SameRooms-trans p q = record {
  same = λ sid room. q.same sid room ∙ p.same sid room;
  alive = λ sid. q.alive sid ∙ p.alive sid;
}

pub deliver_all-SameRooms :
    (p : Packet) (sids : List String) (objects : Dict Session)
    → SameRooms objects (deliver_all p sids objects)
unfolding deliver_all
deliver_all-SameRooms p [] objects = record { same = λ sid room. refl; alive = λ sid. refl }
deliver_all-SameRooms p (sid ∷ sids) objects =
    SameRooms-trans (on_object-SameRooms (deliver p) (deliver-rooms p) sid objects)
      (deliver_all-SameRooms p sids (on_object (deliver p) sid objects))
