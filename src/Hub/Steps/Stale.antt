-- ===== src/Hub/Steps/Stale.antt =====
-- internal/socketio/hub.go: a session that joins a room after it was removed, as a poll can that
-- got its session before the WebSocket of the session closed.
use traffic_analysis.Base.{
  Bool, true, false, ◌&&◌, String, none, ◌==◌, eq_iff, eq_refl, ◌≡◌, refl, arith, ap, ◌∙◌, inl, inr,
  Bool-cases,
}
use traffic_analysis.Dict.{get, is_some}
use traffic_analysis.Dict.Laws.{get-put, get-delete, get-delete_self}
use traffic_analysis.Hub.{
  Hub, emitted, deliver, new_session, blank_session, enter, exit, join_room, leave_room,
  remove_session, rooms_of_object, broadcast, emit, emit_to_session,
}
use traffic_analysis.Hub.Rooms.{in_map-drop_member, in_map-drop_from}
use traffic_analysis.Hub.Packets.{answer_packet}
use traffic_analysis.Hub.Steps.{
  Step, connects, attaches, joins, leaves, removes, broadcasts, emits, emits_to, answers, polls,
  Reach, is_member, is_listed, attach_ws, poll, on_object-SameRooms, deliver-rooms,
  deliver_all-SameRooms,
}
use traffic_analysis.Hub.Steps.Consistent.{
  is_member-join_room, get-join_room, get-leave_room, is_some-change_option, answer-rooms,
  remove_session_listed, remove_session_unlisted, Reach-IsConsistent,
}

-- Whether a step is that the session leaves the room.
abbrev pub is_leave : String → String → {h h' : Hub} → Step h h' → Bool
is_leave sid room (leaves sid' room') = sid == sid' && room == room'
is_leave sid room _ = false

-- Any number of steps, among which the session does not leave the room.
pub data Later (sid room : String) (h : Hub) : Hub → Type 0 where
  now : {h' : Hub} → h ≡ h' → Later sid room h h'
  after :
      {h' h'' : Hub}
      → Later sid room h h'
      → (step : Step h' h'') → is_leave sid room step ≡ false
      → Later sid room h h''

-- A session that was made and is not listed is in a room.
pub record IsStale (sid room : String) (h : Hub) : Type 0 where
  pub member : is_member h room sid ≡ true
  pub gone : is_listed h sid ≡ false
  pub made : is_some (get h.objects sid) ≡ true

module _ (sid room : String) where
  remove_session-IsStale :
      (other : String) (h : Hub) → IsStale sid room h → IsStale sid room (remove_session other h)
  remove_session-IsStale other h v = elim (Bool-cases (is_listed h other)) [
    | inl l ↦ rw (remove_session_listed other h l) (record {
      member = ground (
        arith,
        in_map-drop_from other (rooms_of_object (get h.objects other)) h.rooms room sid,
        eq_iff other sid,
        v.member,
        v.gone,
      );
      gone = ground (arith, get-delete h.sessions other sid, v.gone);
      made = v.made;
    })
    | inr e ↦ rw (remove_session_unlisted other h (ground arith)) v
  ]

  Step-IsStale :
      {h h' : Hub} (step : Step h h')
      → is_leave sid room step ≡ false
      → IsStale sid room h
      → IsStale sid room h'
  unfolding new_session join_room leave_room attach_ws broadcast emit emit_to_session poll
      answer_packet
  Step-IsStale {h} (connects other fresh) stays v = record {
    member = v.member;
    gone = ground (arith, get-put h.sessions other sid true, eq_iff other sid, v.gone, v.made);
    made = ground (arith, get-put h.objects other sid (blank_session other), v.made);
  }
  Step-IsStale {h} (attaches other) stays v = record {
    member = v.member;
    gone = v.gone;
    made = (on_object-SameRooms _ (λ s. refl) other h.objects).alive sid ∙ v.made;
  }
  Step-IsStale {h} (joins other r made) stays v = record {
    member = ground (arith, is_member-join_room other r h room sid, v.member);
    gone = v.gone;
    made = ground (
      arith,
      get-join_room other r h sid,
      is_some-change_option (enter r) (get h.objects sid),
      v.made,
    );
  }
  Step-IsStale {h} (leaves other r) stays v = record {
    member = ground (
      arith,
      in_map-drop_member other r h.rooms room sid,
      eq_iff other sid,
      eq_iff r room,
      eq_iff sid other,
      eq_iff room r,
      v.member,
    );
    gone = v.gone;
    made = ground (
      arith,
      get-leave_room other r h sid,
      is_some-change_option (exit r) (get h.objects sid),
      v.made,
    );
  }
  Step-IsStale {h} (removes other) stays v = remove_session-IsStale other h v
  Step-IsStale {h} (broadcasts r event payload) stays v = record {
    member = v.member;
    gone = v.gone;
    made = (deliver_all-SameRooms (emitted event payload) _ h.objects).alive sid ∙ v.made;
  }
  Step-IsStale {h} (emits event payload) stays v = record {
    member = v.member;
    gone = v.gone;
    made = (deliver_all-SameRooms (emitted event payload) _ h.objects).alive sid ∙ v.made;
  }
  Step-IsStale {h} (emits_to other event payload) stays v = record {
    member = v.member;
    gone = v.gone;
    made =
        (on_object-SameRooms (deliver (emitted event payload)) (deliver-rooms _) other
            h.objects).alive
          sid
        ∙ v.made;
  }
  Step-IsStale {h} (answers other by_ws p) stays v = record {
    member = v.member;
    gone = v.gone;
    made = (on_object-SameRooms _ (answer-rooms by_ws p) other h.objects).alive sid ∙ v.made;
  }
  Step-IsStale {h} (polls late other) stays v = record {
    member = v.member;
    gone = v.gone;
    made = (on_object-SameRooms _ (λ s. refl) other h.objects).alive sid ∙ v.made;
  }

  Later-IsStale : {h h' : Hub} → Later sid room h h' → IsStale sid room h → IsStale sid room h'
  Later-IsStale (now e) v = rw (← e) v
  Later-IsStale (after steps step stays) v = Step-IsStale step stays (Later-IsStale steps v)

  module _ {h : Hub} (reach : Reach h) (here : is_listed h sid ≡ true) where
    abbrev pub rejoined : Hub
    rejoined = join_room sid room (remove_session sid h)

    rejoined-IsStale : IsStale sid room rejoined
    unfolding join_room
    rejoined-IsStale =
        let removed : Hub = remove_session sid h in
        let gone : get removed.sessions sid ≡ none =
          rw (remove_session_listed sid h here) (get-delete_self h.sessions sid) in
        let same : removed.objects ≡ h.objects = rw (remove_session_listed sid h here) refl in
        record {
          member =
              ground
                (arith, is_member-join_room sid room removed room sid, eq_refl room, eq_refl sid);
          gone = ap is_some gone;
          made = ground (
            arith,
            get-join_room sid room removed sid,
            eq_refl sid,
            is_some-change_option (enter room) (get removed.objects sid),
            ap (λ objects. is_some (get objects sid)) same,
            (Reach-IsConsistent reach).allocated sid here,
          );
        }

    -- A listed session of a hub that the steps reach, which is removed and then joins a room, is in
    -- that room and not listed, and so it stays through any further steps, removals of it included,
    -- as long as it does not leave the room itself.
    pub join_room-remove_session :
        {h' : Hub}
        → Later sid room rejoined h'
        → (is_member h' room sid ≡ true) × (is_listed h' sid ≡ false)
    join_room-remove_session steps =
        let v = Later-IsStale steps rejoined-IsStale in (v.member, v.gone)
