-- ===== src/Store/Events.antt =====
-- internal/store/memory.go: the methods on events.
pub mod Laws
use traffic_analysis.Base.{ℕ, Bool, String, Option, none, some, List, inc64, ltb}
use traffic_analysis.Base.Sort.{sort_by}
use traffic_analysis.Dict.{get, put}
use traffic_analysis.Value.{Fields}
use traffic_analysis.Domain.{Event}
use traffic_analysis.Store.{MemoryStore, Result, ok, err, default_text, default_number}
use traffic_analysis.Store.Patch.{string_patch, patched}
use traffic_analysis.Store.Users.{visited}

-- The event that CreateEvent stores under its id.
unfoldable pub created_event : ℕ → String → ℕ → Event → Event
created_event now event_id seq e = record e {
  event_id = event_id;
  id = seq;
  severity = default_text e.severity "medium";
  source = default_text e.source "manual";
  event_status = default_text e.event_status "pending";
  current_round = default_number e.current_round 1;
  created_at = now;
  updated_at = now;
}

pub insert_event : MemoryStore → ℕ → Event → MemoryStore
insert_event s seq e = record s { event_seq = seq; events = put s.events e.event_id e }

unfoldable pub create_event : ℕ → String → Event → MemoryStore → MemoryStore × Result Event
unfolding insert_event
create_event now fresh e s =
    let event_id = default_text e.event_id fresh in
    elim (get s.events event_id) [
      | some other ↦ (s, err "event already exists")
      | none ↦
          let e' = created_event now event_id (inc64 s.event_seq) e in
          (insert_event s (inc64 s.event_seq) e', ok e')
    ]

unfoldable pub get_event : MemoryStore → String → Option Event
get_event s event_id = get s.events event_id

-- out[i].CreatedAt.After(out[j].CreatedAt)
unfoldable pub event_before : Event → Event → Bool
event_before a b = ltb b.created_at a.created_at

unfoldable pub list_events : List String → MemoryStore → List Event
list_events visit s = sort_by event_before (visited s.events visit)

unfoldable pub patched_event : ℕ → Fields → Event → Event
patched_event now patch e = record e {
  event_name = patched (string_patch patch "event_name") e.event_name;
  message = patched (string_patch patch "message") e.message;
  context = patched (string_patch patch "context") e.context;
  severity = patched (string_patch patch "severity") e.severity;
  event_status = patched (string_patch patch "event_status") e.event_status;
  updated_at = now;
}

unfoldable pub update_event : ℕ → String → Fields → MemoryStore → MemoryStore × Option Event
update_event now event_id patch s = elim (get s.events event_id) [
  | none ↦ (s, none)
  | some e ↦
      let e' = patched_event now patch e in
      (record s { events = put s.events event_id e' }, some e')
]
