-- ===== src/Tests/Services.antt =====
-- The services' and the worker's theorems at concrete worlds.
use traffic_analysis.Base.{
  ◌+◌, ◌≤◌, true, String, none, some, List, [], ◌∷◌, ◌≡◌, refl, All, length, ap,
}
use traffic_analysis.Dict.{get, put}
use traffic_analysis.Value.{Value, Fields, nil, at, sprint}
use traffic_analysis.Domain.{EventMap, Message}
use traffic_analysis.Store.{Result, ok, err, new_memory_store}
use traffic_analysis.Store.Sync.{reserve_fingerprint, reserved}
use traffic_analysis.Service.{World}
use traffic_analysis.Service.Mapping.{fingerprint}
use traffic_analysis.Service.Ingest.{duplicate, process_ly_event}
use traffic_analysis.Service.Ingest.Laws.{
  own_fp, own_ly_id, once, process_ly_event-twice, process_ly_event_seen, process_ly_event_refused,
}
use traffic_analysis.Service.Sync.{Progress, attempts, new_record}
use traffic_analysis.Service.Sync.Laws.{attempts_refused}
use traffic_analysis.Service.Sync.Rounds.{
  is_recorded, after, report, sync_items-recorded, sync_items-twice, sync_items-count,
}
use traffic_analysis.Worker.{Wire, Tools, State, Verdict, requeue, on_delivery}
use traffic_analysis.Worker.Laws.{on_delivery_requeued, on_delivery_missing}
use traffic_analysis.Tests.{alert, outside, world}

abbrev no_progress : Progress
no_progress = record { newest = ""; pushed = 0; failed = 0 }

abbrev alerts : List Fields
alerts = alert ∷ []

sync_items-twice_example :
    (after outside 3 alerts (after outside 3 alerts world no_progress) no_progress
      ≡ after outside 3 alerts world no_progress)
    × ((report outside 3 alerts (after outside 3 alerts world no_progress) no_progress).pushed ≡ 0)
    × ((report outside 3 alerts (after outside 3 alerts world no_progress) no_progress).failed ≡ 0)
sync_items-twice_example = sync_items-twice outside 3 alerts world no_progress no_progress

sync_items-recorded_example :
    All (λ ev. is_recorded outside 3 (after outside 3 alerts world no_progress) ev ≡ true) alerts
sync_items-recorded_example = sync_items-recorded outside 3 alerts world no_progress

sync_items-count_example :
    (report outside 3 alerts world no_progress).pushed
      + (report outside 3 alerts world no_progress).failed
    ≤ no_progress.pushed + no_progress.failed + length alerts
sync_items-count_example = sync_items-count outside 3 alerts world no_progress

process_ly_event-twice_example :
    (row : EventMap) × (get (once outside alert world).store.event_maps (own_fp outside alert world)
      ≡ some row)
    × (process_ly_event outside alert (once outside alert world) ≡ (
      record (once outside alert world) { readings = (once outside alert world).readings + 1 },
      ok (
          duplicate
            (own_fp outside alert world)
            (own_ly_id outside alert world)
            row.deepsoc_event_id),
    ))
process_ly_event-twice_example = process_ly_event-twice outside alert world

unknown_alert : get world.store.event_maps (own_fp outside alert world) ≡ none
unfolding new_memory_store get
unknown_alert = refl

process_ly_event_refused_example :
    ((process_ly_event outside alert world).1 ≡ err "unavailable")
    × (get (process_ly_event outside alert world).0.store.event_maps (own_fp outside alert world)
        ≡ some (reserved (outside.now world.readings) (own_fp outside alert world)))
process_ly_event_refused_example =
    process_ly_event_refused outside alert world unknown_alert "unavailable" refl refl

attempts_refused_example :
    ((attempts outside 2 0 alert (new_record outside "e1" "e1") none world).1.status ≡ "SUCCESS")
    × ((attempts outside 2 0 alert (new_record outside "e1" "e1") none world).1.deepsoc_event_id
        ≡ "")
    × ((attempts outside 2 0 alert (new_record outside "e1" "e1") none world).2 ≡ none)
attempts_refused_example =
    attempts_refused outside alert 0 (new_record outside "e1" "e1") world unknown_alert refl refl

abbrev reserved_world : World
reserved_world = record world {
  store = (reserve_fingerprint 4 (fingerprint outside alert) world.store).0;
}

abbrev reserved_row : EventMap
reserved_row = reserved 4 (fingerprint outside alert)

reserved_there :
    get reserved_world.store.event_maps (own_fp outside alert reserved_world) ≡ some reserved_row
unfolding new_memory_store get put reserve_fingerprint fingerprint sprint at
reserved_there = refl

process_ly_event_seen_example : process_ly_event outside alert reserved_world ≡ (
  record reserved_world { readings = reserved_world.readings + 1 },
  ok (
      duplicate
        (own_fp outside alert reserved_world)
        (own_ly_id outside alert reserved_world)
        reserved_row.deepsoc_event_id),
)
process_ly_event_seen_example = process_ly_event_seen outside alert reserved_world reserved_there

abbrev read_body : String → Result Wire
read_body body =
    ok (record { event_id = body; source = "captain"; payload = nil; created_at = nil })

abbrev encoded : Message → Value
encoded m = nil

abbrev tools : Tools
tools = record {
  unmarshal = read_body;
  standard_content = λ v. "";
  encode = encoded;
  now = 5;
  new_id = "m1";
}

abbrev idle : State
idle = record { store = new_memory_store 1; publisher = none }

on_delivery_missing_example : on_delivery tools "sync.completed" "e9" idle ≡ (idle, requeue)
unfolding new_memory_store get
on_delivery_missing_example = on_delivery_missing tools "sync.completed" "e9" idle refl refl refl

on_delivery_requeued_example : (on_delivery tools "sync.completed" "e9" idle).0 ≡ idle
on_delivery_requeued_example =
    on_delivery_requeued tools "sync.completed" "e9" idle
      (ap (λ (r : State × Verdict). r.1) on_delivery_missing_example)
