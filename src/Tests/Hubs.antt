-- ===== src/Tests/Hubs.antt =====
-- The hub's theorems at a hub with one session in one room.
use traffic_analysis.Base.{ℕ, some, true, false, none, [], ◌∷◌, ◌≡◌, refl, if◌then◌else◌}
use traffic_analysis.Dict.{is_some, get, put}
use traffic_analysis.Value.{nil}
use traffic_analysis.Hub.{
  connected, on_object, Hub, pong, emitted, new_hub, new_session, join_room, remove_session,
  broadcast, enqueue, get_session, blank_session,
}
use traffic_analysis.Hub.Queue.{drain, drain-take}
use traffic_analysis.Base.Text.{trim_space}
use traffic_analysis.Hub.Packets.{Draws, handle_engine_packet}
use traffic_analysis.Hub.Polling.{
  HubRequest, serve_http, serve_polling, handle_packets, split_records,
}
use traffic_analysis.Hub.Rooms.{change_option}
use traffic_analysis.Hub.Steps.{
  Reach, start, next, connects, joins, removes, IsConsistent, is_member, is_listed,
}
use traffic_analysis.Hub.Steps.Consistent.{Reach-IsConsistent}
use traffic_analysis.Hub.Steps.Delivery.{sent_packet, get-broadcast}
use traffic_analysis.Hub.Steps.Full.{AllFit, Reach-AllFit}
use traffic_analysis.Hub.Steps.Stale.{now, after, rejoined, join_room-remove_session}

abbrev one_session : Hub
one_session = new_session "s1" new_hub

abbrev one_member : Hub
one_member = join_room "s1" "e1" one_session

one_session_made : is_some (get one_session.objects "s1") ≡ true
unfolding new_session new_hub get put
one_session_made = refl

one_session_listed : is_listed one_session "s1" ≡ true
unfolding new_session new_hub get put
one_session_listed = refl

new_hub_free : get new_hub.objects "s1" ≡ none
unfolding new_hub get
new_hub_free = refl

one_session-Reach : Reach one_session
one_session-Reach = next (start refl) (connects "s1" new_hub_free)

one_member-Reach : Reach one_member
one_member-Reach = next one_session-Reach (joins "s1" "e1" one_session_made)

Reach-IsConsistent_example : IsConsistent one_member
Reach-IsConsistent_example = Reach-IsConsistent one_member-Reach

Reach-AllFit_example : AllFit one_member.objects
Reach-AllFit_example = Reach-AllFit one_member-Reach

get-broadcast_example : get (broadcast "e1" "status" nil one_member).objects "s1" ≡ (
    if is_member one_member "e1" "s1"
    then change_option (sent_packet (emitted "status" nil)) (get one_member.objects "s1")
    else get one_member.objects "s1")
get-broadcast_example = get-broadcast one_member-Reach "e1" "status" nil "s1"

-- The session that joins after its removal, and is removed once more.
abbrev removed_again : Hub
removed_again = remove_session "s1" (rejoined "s1" "e1" one_session-Reach one_session_listed)

join_room-remove_session_example :
    (is_member removed_again "e1" "s1" ≡ true) × (is_listed removed_again "s1" ≡ false)
join_room-remove_session_example =
    join_room-remove_session "s1" "e1" one_session-Reach one_session_listed
      (after (now refl) (removes "s1") refl)

drain-take_example : drain false (pong ∷ []) ≡ (pong ∷ [], [])
drain-take_example = drain-take false (pong ∷ [])

abbrev no_draws : ℕ → Draws
no_draws n = record { unmarshal = λ text. none; now_text = λ i. ""; random_id = "" }

abbrev two_packets : HubRequest
two_packets = record { method = "POST"; transport = "polling"; sid = "s1"; body = "2\u{1e} 40" }

-- A POST of a ping and of a connect: both are answered by the session's queue.
posts_packets :
    get (serve_http no_draws "s2" false [] two_packets one_session).0.objects "s1"
    ≡ some (record (blank_session "s1") { queue = pong ∷ connected "s1" ∷ [] })
unfolding serve_http serve_polling get get_session new_session put new_hub handle_packets
    split_records handle_engine_packet trim_space on_object enqueue
posts_packets = refl
