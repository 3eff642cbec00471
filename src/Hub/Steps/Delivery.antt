-- ===== src/Hub/Steps/Delivery.antt =====
-- internal/socketio/hub.go: what a broadcast does to each session.
use traffic_analysis.Base.{
  Option, none, some, length, ltb, false, String, List, [], ◌∷◌, ◌++◌, ◌==◌, eq_iff, if◌then◌else◌,
  ◌≡◌, refl, arith, ap, Option-cases, inl, inr, Bool-cases,
}
use traffic_analysis.Dict.{Dict, get, put, get_or}
use traffic_analysis.Dict.Laws.{get-put}
use traffic_analysis.Value.{Value}
use traffic_analysis.Hub.{
  Hub, Session, Packet, enqueue, emitted, new_hub, on_object, deliver, deliver_all, new_session,
  has_sid, without_sid, with_sid, members_of, join_room, drop_member, drop_from, leave_room,
  remove_session, broadcast, emit, emit_to_session,
}
use traffic_analysis.Hub.Rooms.{has_sid-append, has_sid-without_sid, change_option, get-on_object}
use traffic_analysis.Hub.Packets.{answer_packet}
use traffic_analysis.Hub.Steps.{
  Step, connects, attaches, joins, leaves, removes, broadcasts, emits, emits_to, answers, polls,
  Reach, start, next, is_member, attach_ws, poll,
}

abbrev pub IsDistinct : List String → Type 0
IsDistinct [] = Unit
IsDistinct (sid ∷ sids) = (has_sid sid sids ≡ false) × IsDistinct sids

IsDistinct-append :
    (sids : List String) (sid : String)
    → IsDistinct sids
    → has_sid sid sids ≡ false
    → IsDistinct (sids ++ sid ∷ [])
unfolding has_sid
IsDistinct-append [] sid d new = (refl, tt)
IsDistinct-append (j ∷ sids) sid d new = (
  ground (arith, has_sid-append j sids sid, eq_iff j sid, eq_iff sid j),
  IsDistinct-append sids sid d.1 (ground arith),
)

with_sid-IsDistinct :
    (sid : String) (sids : List String) → IsDistinct sids → IsDistinct (with_sid sid sids)
unfolding with_sid
with_sid-IsDistinct sid sids d = elim (Bool-cases (has_sid sid sids)) [
  | inl there ↦ rw there d
  | inr new ↦ rw new (IsDistinct-append sids sid d new)
]

without_sid-IsDistinct :
    (sid : String) (sids : List String) → IsDistinct sids → IsDistinct (without_sid sid sids)
unfolding without_sid
without_sid-IsDistinct sid [] d = tt
without_sid-IsDistinct sid (j ∷ sids) d = elim (Bool-cases (j == sid)) [
  | inl same ↦ rw same (without_sid-IsDistinct sid sids d.1)
  | inr other ↦
      rw other (ground (arith, has_sid-without_sid sid j sids), without_sid-IsDistinct sid sids d.1)
]

-- No room has a session twice.
abbrev pub AllDistinct : Dict (List String) → Type 0
AllDistinct rooms = (room : String) → IsDistinct (get_or [] (get rooms room))

put-AllDistinct :
    (rooms : Dict (List String)) (room : String) (sids : List String)
    → AllDistinct rooms
    → IsDistinct sids
    → AllDistinct (put rooms room sids)
put-AllDistinct rooms room sids all d r = elim (Bool-cases (room == r)) [
  | inl same ↦ rw (get-put rooms room r sids, same) d
  | inr other ↦ rw (get-put rooms room r sids, other) (all r)
]

drop_member-AllDistinct :
    (sid room : String) (rooms : Dict (List String))
    → AllDistinct rooms
    → AllDistinct (drop_member sid room rooms)
unfolding drop_member
drop_member-AllDistinct sid room rooms all = elim (Option-cases (get rooms room)) [
  | inl e ↦ rw (e, drop_member) all
  | inr (sids, e) ↦
      rw (e, drop_member)
        (put-AllDistinct rooms room (without_sid sid sids) all
          (without_sid-IsDistinct sid sids (rw (ap (get_or []) e) at (all room))))
]

drop_from-AllDistinct :
    (sid : String) (list : List String) (rooms : Dict (List String))
    → AllDistinct rooms
    → AllDistinct (drop_from sid list rooms)
unfolding drop_from
drop_from-AllDistinct sid [] rooms all = all
drop_from-AllDistinct sid (room ∷ list) rooms all =
    drop_from-AllDistinct sid list (drop_member sid room rooms)
      (drop_member-AllDistinct sid room rooms all)

Step-AllDistinct : {h h' : Hub} → Step h h' → AllDistinct h.rooms → AllDistinct h'.rooms
unfolding new_session attach_ws join_room members_of leave_room broadcast emit emit_to_session poll
    remove_session answer_packet
Step-AllDistinct {h} (connects sid fresh) all = all
Step-AllDistinct {h} (attaches sid) all = all
Step-AllDistinct {h} (joins sid room here) all =
    put-AllDistinct h.rooms room _ all (with_sid-IsDistinct sid _ (all room))
Step-AllDistinct {h} (leaves sid room) all = drop_member-AllDistinct sid room h.rooms all
Step-AllDistinct {h} (removes sid) all = elim (Option-cases (get h.sessions sid)) [
  | inl e ↦ rw (e, remove_session) all
  | inr (b, e) ↦ rw (e, remove_session) (drop_from-AllDistinct sid _ h.rooms all)
]
Step-AllDistinct {h} (broadcasts room event payload) all = all
Step-AllDistinct {h} (emits event payload) all = all
Step-AllDistinct {h} (emits_to sid event payload) all = all
Step-AllDistinct {h} (answers sid by_ws p) all = all
Step-AllDistinct {h} (polls late sid) all = all

Reach-AllDistinct : {h : Hub} → Reach h → AllDistinct h.rooms
unfolding new_hub get
Reach-AllDistinct (start e) = rw e (λ room. tt)
Reach-AllDistinct (next r step) = Step-AllDistinct step (Reach-AllDistinct r)

deliver_all-get :
    (p : Packet) (sids : List String) (objects : Dict Session) (j : String)
    → IsDistinct sids
    → get (deliver_all p sids objects) j
      ≡ (if has_sid j sids then change_option (deliver p) (get objects j) else get objects j)
unfolding deliver_all has_sid
deliver_all-get p [] objects j d = refl
deliver_all-get p (sid ∷ sids) objects j d = ground (
  arith,
  deliver_all-get p sids (on_object (deliver p) sid objects) j d.1,
  get-on_object (deliver p) sid j objects,
  eq_iff sid j,
)

-- A session that was sent a packet: the packet is put at the end of the queue where that has fewer
-- than 256, and dropped where not, and it is written once to the WebSocket where there is one.
abbrev pub sent_packet : Packet → Session → Session
sent_packet p s = record {
  sid = s.sid;
  rooms = s.rooms;
  queue = if ltb (length s.queue) 256 then s.queue ++ p ∷ [] else s.queue;
  has_ws = s.has_ws;
  written = if s.has_ws then s.written ++ p ∷ [] else s.written;
}

deliver-sent_packet : (p : Packet) (s : Session) → deliver p s ≡ sent_packet p s
unfolding deliver enqueue
deliver-sent_packet p s = ground arith

change_option-sent_packet :
    (p : Packet) (o : Option Session)
    → change_option (deliver p) o ≡ change_option (sent_packet p) o
change_option-sent_packet p none = refl
change_option-sent_packet p (some s) = ap some (deliver-sent_packet p s)

-- In a hub that the steps reach, joins of removed sessions included, a broadcast to a room has this
-- effect on a session: one that is in the room gets the packet at the end of its queue, if that has
-- fewer than 256, and besides on its WebSocket, if it has one, each time once; any other session is
-- left as it is.
pub get-broadcast :
    {h : Hub}
    → Reach h
    → (room event : String) (payload : Value) (j : String)
    → get (broadcast room event payload h).objects j ≡ (
        if is_member h room j
        then change_option (sent_packet (emitted event payload)) (get h.objects j)
        else get h.objects j)
unfolding broadcast members_of
get-broadcast {h} r room event payload j =
    rw (← change_option-sent_packet (emitted event payload) (get h.objects j))
      (deliver_all-get (emitted event payload) _ h.objects j (Reach-AllDistinct r room))
