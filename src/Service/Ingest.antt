-- ===== src/Service/Ingest.antt =====
-- internal/service/services.go: ProcessLyEvent.
pub mod Laws
use Prim.Native.String.{◌++◌ as append, slice}
use traffic_analysis.Base.{
  ℕ, ◌+◌, Bool, true, false, String, Option, none, some, List, [], ◌∷◌, ◌==◌, if◌then◌else◌,
}
use traffic_analysis.Dict.{get_or}
use traffic_analysis.Value.{Fields, at, as_string}
use traffic_analysis.Domain.{Event}
use traffic_analysis.Store.{MemoryStore, Result, ok, err}
use traffic_analysis.Store.Events.{create_event}
use traffic_analysis.Store.Sync.{reserve_fingerprint, bind_event_map, get_event_map, no_event_map}
use traffic_analysis.Service.{Outside, World, Payload, upstream, ingested, publish, notify_created}
use traffic_analysis.Service.Mapping.{fingerprint, ly_event_to_deepsoc, extract_event_id}

-- The map that ProcessLyEvent returns: with "skipped" or with "success", and the upstream's answer
-- where there was one.
pub data Ingested : Type 0 where
  duplicate : String → String → String → Ingested
  success : String → String → String → Option Fields → Ingested

-- res["deepsoc_event_id"]
unfoldable pub deepsoc_id_of : Ingested → String
deepsoc_id_of (duplicate fp ly_id id) = id
deepsoc_id_of (success fp ly_id id resp) = id

module _ (o : Outside) where
  -- The branch for an event that another call has reserved.
  unfoldable pub skip : String → String → World → World × Result Ingested
  skip fp ly_id w =
      let row = get_or no_event_map (get_event_map w.store fp) in
      (w, ok (duplicate fp ly_id row.deepsoc_event_id))

  unfoldable pub finish_upstream : String → String → Result Fields → World → World × Result Ingested
  finish_upstream fp ly_id (err e) w = (w, err e)
  finish_upstream fp ly_id (ok resp) w =
      let deep_id = extract_event_id resp in
      let bound : World = record w {
        store = bind_event_map (o.now w.readings) fp ly_id deep_id w.store;
        readings = w.readings + 1;
      } in
      (
        publish o "event.ingested" deep_id "flowshadow" (upstream fp ly_id resp) bound,
        ok (success fp ly_id deep_id (some resp)),
      )

  -- The branch for an enabled upstream.
  unfoldable pub ingest_upstream : String → String → Event → World → World × Result Ingested
  unfolding finish_upstream
  ingest_upstream fp ly_id payload w =
      finish_upstream fp ly_id (o.deepsoc_create w.readings payload fp)
        (record w { readings = w.readings + 1 })

  -- "ly-" + fp[:16] for an event without an id.
  unfoldable pub local_event : String → Event → Event
  local_event fp payload =
      if payload.event_id == ""
      then record payload { event_id = append "ly-" (slice fp 0 16) }
      else payload

  unfoldable pub finish_local : String → String → World → Result Event → World × Result Ingested
  finish_local fp ly_id w (err e) = (w, err e)
  finish_local fp ly_id w (ok event) =
      let bound : World = record w {
        store = bind_event_map (o.now w.readings) fp ly_id event.event_id w.store;
        readings = w.readings + 1;
      } in
      (
        publish o "event.ingested" event.event_id "flowshadow" (ingested fp ly_id event)
            (notify_created o event bound),
        ok (success fp ly_id event.event_id none),
      )

  -- The branch without an upstream.
  unfoldable pub ingest_local : String → String → Event → World → World × Result Ingested
  unfolding finish_local
  ingest_local fp ly_id payload w =
      let n = w.readings in
      let (s, created) =
        create_event (o.now n) (o.new_id n "evt") (local_event fp payload) w.store in
      finish_local fp ly_id (record w { store = s; readings = n + 1 }) created

  unfoldable pub process_ly_event : Fields → World → World × Result Ingested
  unfolding skip
  process_ly_event ly w =
      let fp = fingerprint o ly in
      let ly_id = as_string (at ly "id") in
      let (s, reserved) = reserve_fingerprint (o.now w.readings) fp w.store in
      let w' : World = record w { store = s; readings = w.readings + 1 } in
      if reserved
      then (if o.deepsoc_enabled
          then ingest_upstream fp ly_id (ly_event_to_deepsoc o ly) w'
          else ingest_local fp ly_id (ly_event_to_deepsoc o ly) w')
      else skip fp ly_id w'
