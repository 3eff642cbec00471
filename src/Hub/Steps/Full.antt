-- ===== src/Hub/Steps/Full.antt =====
-- internal/socketio/hub.go: how many packets wait in the queues.
use traffic_analysis.Base.{
  ◌≤◌, Bool, String, Option, none, some, List, [], ◌∷◌, ◌++◌, ◌==◌, length, length-append,
  if◌then◌else◌, arith, Option-cases, inl, inr, Bool-cases,
}
use traffic_analysis.Dict.{Dict, get}
use traffic_analysis.Dict.Laws.{get-put}
use traffic_analysis.Hub.{
  Hub, Session, Packet, emitted, new_hub, enqueue, deliver, deliver_all, on_object, new_session,
  blank_session, enter, exit, join_room, leave_room, remove_session, broadcast, emit,
  emit_to_session,
}
use traffic_analysis.Hub.Queue.{drain, drain-split}
use traffic_analysis.Hub.Rooms.{change_option, get-on_object}
use traffic_analysis.Hub.Packets.{answer_packet}
use traffic_analysis.Hub.Steps.{
  Step, connects, attaches, joins, leaves, removes, broadcasts, emits, emits_to, answers, polls,
  Reach, start, next, attach_ws, poll,
}

-- At most 256 packets wait for the session.
abbrev pub FitsQueue : Option Session → Type 0
FitsQueue none = Unit
FitsQueue (some s) = length s.queue ≤ 256

abbrev pub AllFit : Dict Session → Type 0
AllFit objects = (j : String) → FitsQueue (get objects j)

-- A change of a session that keeps its queue within the bound.
abbrev IsFitting : (Session → Session) → Type 0
IsFitting change = (s : Session) → length s.queue ≤ 256 → length (change s).queue ≤ 256

change_option-FitsQueue :
    (change : Session → Session)
    → IsFitting change
    → (o : Option Session) → FitsQueue o
    → FitsQueue (change_option change o)
change_option-FitsQueue change keeps none fits = tt
change_option-FitsQueue change keeps (some s) fits = keeps s fits

on_object-AllFit :
    (change : Session → Session)
    → IsFitting change
    → (sid : String) (objects : Dict Session) → AllFit objects
    → AllFit (on_object change sid objects)
on_object-AllFit change keeps sid objects fits j =
    rw (get-on_object change sid j objects) (elim (Bool-cases (sid == j)) [
      | inl same ↦ rw same (change_option-FitsQueue change keeps (get objects j) (fits j))
      | inr other ↦ rw other (fits j)
    ])

enqueue-IsFitting : (p : Packet) → IsFitting (enqueue p)
unfolding enqueue
enqueue-IsFitting p s fits = ground (arith, length-append s.queue (p ∷ []))

deliver-IsFitting : (p : Packet) → IsFitting (deliver p)
unfolding deliver
deliver-IsFitting p s fits = ground (arith, enqueue-IsFitting p s fits)

answer-IsFitting :
    (by_ws : Bool) (p : Packet)
    → IsFitting (λ s. if by_ws then record s { written = s.written ++ p ∷ [] } else enqueue p s)
answer-IsFitting by_ws p s fits = ground (arith, enqueue-IsFitting p s fits)

drain-length : (late : Bool) (queue : List Packet) → length (drain late queue).1 ≤ length queue
drain-length late queue =
    ground (arith, drain-split late queue, length-append (drain late queue).0 (drain late queue).1)

drain-IsFitting : (late : Bool) → IsFitting (λ s. record s { queue = (drain late s.queue).1 })
drain-IsFitting late s fits = ground (arith, drain-length late s.queue)

deliver_all-AllFit :
    (p : Packet) (sids : List String) (objects : Dict Session)
    → AllFit objects
    → AllFit (deliver_all p sids objects)
unfolding deliver_all
deliver_all-AllFit p [] objects fits = fits
deliver_all-AllFit p (sid ∷ sids) objects fits =
    deliver_all-AllFit p sids (on_object (deliver p) sid objects)
      (on_object-AllFit (deliver p) (deliver-IsFitting p) sid objects fits)

new_session-AllFit :
    (sid : String) (h : Hub) → AllFit h.objects → AllFit (new_session sid h).objects
unfolding new_session blank_session
new_session-AllFit sid h fits j =
    rw (get-put h.objects sid j (blank_session sid)) (elim (Bool-cases (sid == j)) [
      | inl same ↦ rw same (omega arith)
      | inr other ↦ rw other (fits j)
    ])

Step-AllFit : {h h' : Hub} → Step h h' → AllFit h.objects → AllFit h'.objects
unfolding attach_ws join_room leave_room broadcast emit emit_to_session answer_packet poll enter
    exit remove_session get
Step-AllFit {h} (connects sid fresh) fits = new_session-AllFit sid h fits
Step-AllFit {h} (attaches sid) fits = on_object-AllFit _ (λ s fit. fit) sid h.objects fits
Step-AllFit {h} (joins sid room made) fits =
    on_object-AllFit (enter room) (λ s fit. fit) sid h.objects fits
Step-AllFit {h} (leaves sid room) fits =
    on_object-AllFit (exit room) (λ s fit. fit) sid h.objects fits
Step-AllFit {h} (removes sid) fits = elim (Option-cases (get h.sessions sid)) [
  | inl e ↦ rw (e, remove_session) fits
  | inr (b, e) ↦ rw (e, remove_session) fits
]
Step-AllFit {h} (broadcasts room event payload) fits =
    deliver_all-AllFit (emitted event payload) _ h.objects fits
Step-AllFit {h} (emits event payload) fits =
    deliver_all-AllFit (emitted event payload) _ h.objects fits
Step-AllFit {h} (emits_to sid event payload) fits =
    on_object-AllFit _ (deliver-IsFitting (emitted event payload)) sid h.objects fits
Step-AllFit {h} (answers sid by_ws p) fits =
    on_object-AllFit _ (answer-IsFitting by_ws p) sid h.objects fits
Step-AllFit {h} (polls late sid) fits = on_object-AllFit _ (drain-IsFitting late) sid h.objects fits

-- In every hub that the steps reach, at most 256 packets wait for any session.
pub Reach-AllFit : {h : Hub} → Reach h → AllFit h.objects
unfolding new_hub get
Reach-AllFit (start e) = rw e (λ j. tt)
Reach-AllFit (next r step) = Step-AllFit step (Reach-AllFit r)
