-- ===== src/Hub/Steps/Consistent.antt =====
-- internal/socketio/hub.go: the two records of who is in which room, step by step.
use traffic_analysis.Base.{
  Bool, [], ◌∷◌, ◌++◌, true, not, ◌&&◌, ◌||◌, String, Option, none, some, ◌==◌, eq_iff,
  if◌then◌else◌, ◌≡◌, refl, arith, ap, Option-cases, inl, inr, Bool-cases,
}
use traffic_analysis.Dict.{get, delete, is_some}
use traffic_analysis.Dict.Laws.{get-put, get-delete}
use traffic_analysis.Hub.{
  Hub, Session, Packet, enqueue, new_hub, new_session, blank_session, has_sid, with_sid, members_of,
  enter, exit, join_room, drop_from, leave_room, remove_session, rooms_of_object, emitted, deliver,
  broadcast, emit, emit_to_session,
}
use traffic_analysis.Hub.Rooms.{
  has_sid-with_sid, in_map, in_object, in_map-drop_member, in_map-drop_from, has_sid-keys,
  change_option, get-on_object,
}
use traffic_analysis.Hub.Packets.{answer_packet}
use traffic_analysis.Hub.Steps.{
  Step, connects, attaches, joins, leaves, removes, broadcasts, emits, emits_to, answers, polls,
  Reach, start, next, IsConsistent, is_member, is_listed, SameRooms-IsConsistent,
  on_object-SameRooms, deliver-rooms, deliver_all-SameRooms, attach_ws, poll,
}

new_session-IsConsistent :
    (sid : String) (h : Hub)
    → get h.objects sid ≡ none
    → IsConsistent h
    → IsConsistent (new_session sid h)
unfolding new_session get
new_session-IsConsistent sid h fresh v = record {
  knows = λ room j m.
      ground (arith, get-put h.objects sid j (blank_session sid), v.knows room j m, eq_iff sid j);
  present = λ room j l k. ground (
    arith,
    get-put h.objects sid j (blank_session sid),
    get-put h.sessions sid j true,
    v.present room j,
    eq_iff sid j,
  );
  allocated = λ j l. ground (
    arith,
    get-put h.objects sid j (blank_session sid),
    get-put h.sessions sid j true,
    v.allocated j,
  );
}

-- A session that enters or exits a room, seen in its own record.
in_object-enter :
    (o : Option Session) (room r : String)
    → in_object (change_option (enter room) o) r ≡ (is_some o && (room == r || in_object o r))
unfolding enter
in_object-enter none room r = refl
in_object-enter (some s) room r = ground (arith, get-put s.rooms room r true)

in_object-exit :
    (o : Option Session) (room r : String)
    → in_object (change_option (exit room) o) r ≡ (not (room == r) && in_object o r)
unfolding exit
in_object-exit none room r = ground arith
in_object-exit (some s) room r = ground (arith, get-delete s.rooms room r)

pub is_some-change_option :
    (change : Session → Session) (o : Option Session) → is_some (change_option change o) ≡ is_some o
is_some-change_option change none = refl
is_some-change_option change (some s) = refl

module _ (sid room : String) (h : Hub) where
  pub is_member-join_room :
      (r j : String)
      → is_member (join_room sid room h) r j
        ≡ (if room == r && sid == j then true else is_member h r j)
  unfolding join_room
  is_member-join_room r j = ground (
    arith,
    get-put h.rooms room r (with_sid sid (members_of h room)),
    has_sid-with_sid sid j (members_of h room),
    eq_iff room r,
  )

  pub get-join_room :
      (j : String)
      → get (join_room sid room h).objects j
        ≡ (if sid == j then change_option (enter room) (get h.objects j) else get h.objects j)
  unfolding join_room
  get-join_room j = get-on_object (enter room) sid j h.objects

  join_room-IsConsistent :
      is_some (get h.objects sid) ≡ true → IsConsistent h → IsConsistent (join_room sid room h)
  unfolding join_room
  join_room-IsConsistent here v = record {
    knows = λ r j m. ground (
      arith,
      is_member-join_room r j,
      get-join_room j,
      in_object-enter (get h.objects j) room r,
      v.knows r j,
      eq_iff sid j,
    );
    present = λ r j l k. ground (
      arith,
      is_member-join_room r j,
      get-join_room j,
      in_object-enter (get h.objects j) room r,
      v.present r j,
    );
    allocated = λ j l. ground (
      arith,
      get-join_room j,
      is_some-change_option (enter room) (get h.objects j),
      v.allocated j,
    );
  }

  pub get-leave_room :
      (j : String)
      → get (leave_room sid room h).objects j
        ≡ (if sid == j then change_option (exit room) (get h.objects j) else get h.objects j)
  unfolding leave_room
  get-leave_room j = get-on_object (exit room) sid j h.objects

  leave_room-IsConsistent : IsConsistent h → IsConsistent (leave_room sid room h)
  unfolding leave_room
  leave_room-IsConsistent v = record {
    knows = λ r j m. ground (
      arith,
      in_map-drop_member sid room h.rooms r j,
      get-leave_room j,
      in_object-exit (get h.objects j) room r,
      v.knows r j,
    );
    present = λ r j l k. ground (
      arith,
      in_map-drop_member sid room h.rooms r j,
      get-leave_room j,
      in_object-exit (get h.objects j) room r,
      v.present r j,
    );
    allocated = λ j l. ground (
      arith,
      get-leave_room j,
      is_some-change_option (exit room) (get h.objects j),
      v.allocated j,
    );
  }

module _ (sid : String) (h : Hub) where
  pub remove_session_unlisted : get h.sessions sid ≡ none → remove_session sid h ≡ h
  unfolding remove_session
  remove_session_unlisted e = rw (e, remove_session)

  pub remove_session_listed :
      is_listed h sid ≡ true
      → remove_session sid h ≡ record h {
        rooms = drop_from sid (rooms_of_object (get h.objects sid)) h.rooms;
        sessions = delete h.sessions sid;
      }
  unfolding remove_session
  remove_session_listed l = elim (Option-cases (get h.sessions sid)) [
    | inl e ↦ cc (ap is_some e)
    | inr (b, e) ↦ rw (e, remove_session)
  ]

  has_sid-rooms_of_object :
      (o : Option Session) (r : String) → has_sid r (rooms_of_object o) ≡ in_object o r
  unfolding has_sid
  has_sid-rooms_of_object none r = refl
  has_sid-rooms_of_object (some s) r = has_sid-keys s.rooms r

  -- Dropping the session from its own rooms drops it from every room.
  pub is_member-removed :
      IsConsistent h
      → (r j : String)
      → in_map (drop_from sid (rooms_of_object (get h.objects sid)) h.rooms) r j
        ≡ (not (sid == j) && is_member h r j)
  is_member-removed v r j = ground (
    arith,
    in_map-drop_from sid (rooms_of_object (get h.objects sid)) h.rooms r j,
    has_sid-rooms_of_object (get h.objects sid) r,
    v.knows r j,
    eq_iff sid j,
  )

  remove_session-IsConsistent : IsConsistent h → IsConsistent (remove_session sid h)
  remove_session-IsConsistent v = elim (Bool-cases (is_listed h sid)) [
    | inl l ↦ rw (remove_session_listed l) (record {
      knows = λ r j m. ground (arith, is_member-removed v r j, v.knows r j);
      present = λ r j listed k.
          ground (arith, is_member-removed v r j, v.present r j, get-delete h.sessions sid j);
      allocated = λ j listed. ground (arith, v.allocated j, get-delete h.sessions sid j);
    })
    | inr e ↦ rw (remove_session_unlisted (ground arith)) v
  ]

pub answer-rooms :
    (by_ws : Bool) (p : Packet) (s : Session)
    → (if by_ws then record s { written = s.written ++ p ∷ [] } else enqueue p s).rooms ≡ s.rooms
unfolding enqueue
answer-rooms by_ws p s = ground arith

Step-IsConsistent : {h h' : Hub} → Step h h' → IsConsistent h → IsConsistent h'
unfolding attach_ws broadcast emit emit_to_session poll answer_packet
Step-IsConsistent {h} (connects sid fresh) v = new_session-IsConsistent sid h fresh v
Step-IsConsistent {h} (attaches sid) v =
    SameRooms-IsConsistent (on_object-SameRooms _ (λ s. refl) sid h.objects) v
Step-IsConsistent {h} (joins sid room here) v = join_room-IsConsistent sid room h here v
Step-IsConsistent {h} (leaves sid room) v = leave_room-IsConsistent sid room h v
Step-IsConsistent {h} (removes sid) v = remove_session-IsConsistent sid h v
Step-IsConsistent {h} (broadcasts room event payload) v =
    SameRooms-IsConsistent (deliver_all-SameRooms (emitted event payload) _ h.objects) v
Step-IsConsistent {h} (emits event payload) v =
    SameRooms-IsConsistent (deliver_all-SameRooms (emitted event payload) _ h.objects) v
Step-IsConsistent {h} (emits_to sid event payload) v =
    SameRooms-IsConsistent
      (on_object-SameRooms (deliver (emitted event payload)) (deliver-rooms _) sid h.objects) v
Step-IsConsistent {h} (answers sid by_ws p) v =
    SameRooms-IsConsistent (on_object-SameRooms _ (answer-rooms by_ws p) sid h.objects) v
Step-IsConsistent {h} (polls late sid) v =
    SameRooms-IsConsistent (on_object-SameRooms _ (λ s. refl) sid h.objects) v

new_hub-IsConsistent : IsConsistent new_hub
unfolding new_hub get has_sid
new_hub-IsConsistent = record {
  knows = λ r j m. cc;
  present = λ r j l k. cc;
  allocated = λ j l. cc;
}

-- In every hub that the steps reach, a session that is in a room has the room in its own record, a
-- listed session that has a room in its record is in that room, and what is listed was made.
pub Reach-IsConsistent : {h : Hub} → Reach h → IsConsistent h
Reach-IsConsistent (start e) = rw e new_hub-IsConsistent
Reach-IsConsistent (next r step) = Step-IsConsistent step (Reach-IsConsistent r)
