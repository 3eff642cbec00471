-- ===== src/Hub/Rooms.antt =====
-- internal/socketio/hub.go: who is in a room after each method, by room and by session.
use traffic_analysis.Base.{
  Option-cases, inl, inr, Bool, false, not, ◌&&◌, ◌||◌, String, Option, none, some, List, [], ◌∷◌,
  ◌++◌, ◌==◌, eq_iff, if◌then◌else◌, ◌≡◌, refl, arith,
}
use traffic_analysis.Dict.{Dict, get, keys, get_or, is_some}
use traffic_analysis.Dict.Laws.{get-put}
use traffic_analysis.Hub.{
  Session, on_object, has_sid, without_sid, with_sid, drop_member, drop_from,
}

has_sid-nil : (j : String) → has_sid j [] ≡ false
unfolding has_sid
has_sid-nil j = refl

pub has_sid-append :
    (j : String) (ms : List String) (sid : String)
    → has_sid j (ms ++ sid ∷ []) ≡ (has_sid j ms || sid == j)
unfolding has_sid
has_sid-append j [] sid = ground arith
has_sid-append j (m ∷ ms) sid = ground (arith, has_sid-append j ms sid)

pub has_sid-with_sid :
    (sid j : String) (ms : List String) → has_sid j (with_sid sid ms) ≡ (sid == j || has_sid j ms)
unfolding with_sid
has_sid-with_sid sid j ms = ground (arith, has_sid-append j ms sid, eq_iff sid j)

pub has_sid-without_sid :
    (sid j : String) (ms : List String)
    → has_sid j (without_sid sid ms) ≡ (not (sid == j) && has_sid j ms)
unfolding has_sid without_sid
has_sid-without_sid sid j [] = ground arith
has_sid-without_sid sid j (m ∷ ms) =
    ground (arith, has_sid-without_sid sid j ms, eq_iff m sid, eq_iff m j, eq_iff sid j)

-- Whether the hub's map has a session in a room.
abbrev pub in_map : Dict (List String) → String → String → Bool
in_map rooms room sid = has_sid sid (get_or [] (get rooms room))

-- Whether the session's own map has the room.
abbrev pub in_object : Option Session → String → Bool
in_object none room = false
in_object (some s) room = is_some (get s.rooms room)

pub in_map-drop_member :
    (sid room : String) (rooms : Dict (List String)) (r j : String)
    → in_map (drop_member sid room rooms) r j ≡ (not (room == r && sid == j) && in_map rooms r j)
unfolding drop_member
in_map-drop_member sid room rooms r j = elim (Option-cases (get rooms room)) [
  | inl e ↦ rw (e, drop_member) (ground (arith, e, eq_iff room r, has_sid-nil j))
  | inr (ms, e) ↦
      rw (e, drop_member)
        (ground (
          arith,
          e,
          eq_iff room r,
          eq_iff sid j,
          get-put rooms room r (without_sid sid ms),
          has_sid-without_sid sid j ms,
        ))
]

pub in_map-drop_from :
    (sid : String) (list : List String) (rooms : Dict (List String)) (r j : String)
    → in_map (drop_from sid list rooms) r j ≡ (not (has_sid r list && sid == j) && in_map rooms r j)
unfolding drop_from has_sid
in_map-drop_from sid [] rooms r j = ground arith
in_map-drop_from sid (room ∷ list) rooms r j = ground (
  arith,
  in_map-drop_from sid list (drop_member sid room rooms) r j,
  in_map-drop_member sid room rooms r j,
)

pub has_sid-keys : {V : Type 0} (m : Dict V) (k : String) → has_sid k (keys m) ≡ is_some (get m k)
unfolding has_sid keys get
has_sid-keys [] k = refl
has_sid-keys ((j, v) ∷ m) k = ground (arith, has_sid-keys m k)

abbrev pub change_option : (Session → Session) → Option Session → Option Session
change_option change none = none
change_option change (some s) = some (change s)

-- A change of one object is seen there, and nowhere else.
pub get-on_object :
    (change : Session → Session) (sid j : String) (objects : Dict Session)
    → get (on_object change sid objects) j
      ≡ (if sid == j then change_option change (get objects j) else get objects j)
unfolding on_object
get-on_object change sid j objects = elim (Option-cases (get objects sid)) [
  | inl e ↦ rw (e, on_object) (ground (arith, e, eq_iff sid j))
  | inr (s, e) ↦
      rw (e, on_object) (ground (arith, e, eq_iff sid j, get-put objects sid j (change s)))
]
