-- ===== src/Realtime.antt =====
-- internal/realtime/realtime.go: the one publisher that the process has registered, if any, and
-- what is broadcast through it.
use traffic_analysis.Base.{◌||◌, String, Option, none, some, ◌==◌, if◌then◌else◌}
use traffic_analysis.Value.{Value}
use traffic_analysis.Hub.{Hub}
use traffic_analysis.Hub

-- `current.Store(p)`, for a p that is not nil.
unfoldable pub register : Option Hub → Option Hub → Option Hub
register none current = current
register (some p) current = some p

abbrev through : (Hub → Hub) → Option Hub → Option Hub
through change none = none
through change (some h) = some (change h)

unfoldable pub broadcast : String → String → Value → Option Hub → Option Hub
broadcast room event payload current =
    if room == "" || event == ""
    then current
    else through (Hub.broadcast room event payload) current

unfoldable pub broadcast_message : String → Value → Option Hub → Option Hub
unfolding broadcast
broadcast_message event_id message current = broadcast event_id "new_message" message current

unfoldable pub broadcast_execution_update : String → Value → Option Hub → Option Hub
unfolding broadcast
broadcast_execution_update event_id payload current =
    broadcast event_id "execution_update" payload current

unfoldable pub broadcast_status : String → Value → Option Hub → Option Hub
unfolding broadcast
broadcast_status event_id payload current = broadcast event_id "status" payload current
