-- ===== src/Service/Ingest/Laws.antt =====
-- internal/service/services.go: what ProcessLyEvent does to the store, on each of its branches.
use traffic_analysis.Base.{
  ℕ, ◌+◌, Bool, true, String, none, some, if◌then◌else◌, ◌≡◌, refl, arith, ap, ◌∙◌, inl, inr,
  Option-cases, if-elim, if-true,
}
use traffic_analysis.Dict.{get, put, is_some}
use traffic_analysis.Dict.Laws.{get-put_self, is_some-get-put}
use traffic_analysis.Value.{Fields, at, as_string}
use traffic_analysis.Domain.{Event, EventMap}
use traffic_analysis.Store.{MemoryStore, Result, ok, err}
use traffic_analysis.Store.Events.{create_event}
use traffic_analysis.Store.Messages.{add_message}
use traffic_analysis.Store.Sync.{reserved, reserve_fingerprint, bind_event_map, get_event_map}
use traffic_analysis.Service.{Outside, World, Payload, publish, notify_created}
use traffic_analysis.Service.Mapping.{fingerprint, ly_event_to_deepsoc, extract_event_id}
use traffic_analysis.Service.Ingest.{
  Ingested, duplicate, ingest_upstream, ingest_local, finish_upstream, finish_local, local_event,
  process_ly_event,
}

module _ (o : Outside) (ly : Fields) (w : World) where
  abbrev pub own_fp : String
  own_fp = fingerprint o ly

  abbrev pub own_ly_id : String
  own_ly_id = as_string (at ly "id")

  -- The world in which the branches run: the fingerprint is tried, one reading is used.
  abbrev pub tried : World
  tried = record w {
    store = (reserve_fingerprint (o.now w.readings) own_fp w.store).0;
    readings = w.readings + 1;
  }

  module _ {row : EventMap} (seen : get w.store.event_maps own_fp ≡ some row) where
    -- An event whose fingerprint is there is skipped: nothing changes but the count of readings, and
    -- the answer is a duplicate with the id that is bound to the fingerprint.
    pub process_ly_event_seen : process_ly_event o ly w ≡ (
      record w { readings = w.readings + 1 },
      ok (duplicate own_fp own_ly_id row.deepsoc_event_id),
    )
    unfolding process_ly_event reserve_fingerprint get_event_map
    process_ly_event_seen = ground arith

  module _ (new : get w.store.event_maps own_fp ≡ none) where
    abbrev reserved_world : World
    reserved_world = record w {
      store = record w.store {
        event_maps = put w.store.event_maps own_fp (reserved (o.now w.readings) own_fp);
      };
      readings = w.readings + 1;
    }

    pub process_ly_event_new : process_ly_event o ly w ≡ (
        if o.deepsoc_enabled
        then ingest_upstream o own_fp own_ly_id (ly_event_to_deepsoc o ly) reserved_world
        else ingest_local o own_fp own_ly_id (ly_event_to_deepsoc o ly) reserved_world)
    unfolding process_ly_event reserve_fingerprint
    process_ly_event_new = rw (new, process_ly_event, reserve_fingerprint) refl

module _ (o : Outside) (fp : String) where
  abbrev pub known : World → Bool
  known w = is_some (get w.store.event_maps fp)

  known-publish :
      (key id source : String) (p : Payload) (w : World)
      → known (publish o key id source p w) ≡ known w
  unfolding publish
  known-publish key id source p w = ground arith

  known-notify_created : (e : Event) (w : World) → known (notify_created o e w) ≡ known w
  unfolding notify_created add_message
  known-notify_created e w = ground arith

  known-bind :
      (now : ℕ) (fp' ly_id id : String) (s : MemoryStore)
      → is_some (get s.event_maps fp) ≡ true
      → is_some (get (bind_event_map now fp' ly_id id s).event_maps fp) ≡ true
  unfolding bind_event_map
  known-bind now fp' ly_id id s h = is_some-get-put s.event_maps fp' fp _ h

  known-finish_upstream :
      (ly_id : String) (r : Result Fields) (w : World)
      → known w ≡ true
      → known (finish_upstream o fp ly_id r w).0 ≡ true
  unfolding finish_upstream
  known-finish_upstream ly_id (err e) w h = h
  known-finish_upstream ly_id (ok resp) w h =
      known-publish _ _ _ _ _
      ∙ known-bind (o.now w.readings) fp ly_id (extract_event_id resp) w.store h

  known-finish_local :
      (ly_id : String) (w : World) (r : Result Event)
      → known w ≡ true
      → known (finish_local o fp ly_id w r).0 ≡ true
  unfolding finish_local
  known-finish_local ly_id w (err e) h = h
  known-finish_local ly_id w (ok e) h =
      known-publish _ _ _ _ _
      ∙ known-notify_created e _
      ∙ known-bind (o.now w.readings) fp ly_id e.event_id w.store h

  event_maps-create_event :
      (now : ℕ) (fresh : String) (e : Event) (s : MemoryStore)
      → (create_event now fresh e s).0.event_maps ≡ s.event_maps
  unfolding create_event
  event_maps-create_event now fresh e s = ground arith

  pub ingest_upstream_refused :
      (ly_id : String) (payload : Event) (w : World) {e : String}
      → o.deepsoc_create w.readings payload fp ≡ err e
      → ingest_upstream o fp ly_id payload w ≡ (record w { readings = w.readings + 1 }, err e)
  unfolding ingest_upstream finish_upstream
  ingest_upstream_refused ly_id payload w h = rw (h, ingest_upstream, finish_upstream)

  known-ingest_upstream :
      (ly_id : String) (e : Event) (w : World)
      → known w ≡ true
      → known (ingest_upstream o fp ly_id e w).0 ≡ true
  unfolding ingest_upstream
  known-ingest_upstream ly_id e w h =
      known-finish_upstream ly_id (o.deepsoc_create w.readings e fp) _ h

  known-ingest_local :
      (ly_id : String) (e : Event) (w : World)
      → known w ≡ true
      → known (ingest_local o fp ly_id e w).0 ≡ true
  unfolding ingest_local
  known-ingest_local ly_id e w h =
      let n = w.readings in
      let e' = local_event o fp e in
      known-finish_local ly_id _ (create_event (o.now n) (o.new_id n "evt") e' w.store).1 (
        ap (λ m. is_some (get m fp))
          (event_maps-create_event (o.now n) (o.new_id n "evt") e' w.store)
        ∙ h)

module _ (o : Outside) (ly : Fields) (w : World) where
  -- Whatever ProcessLyEvent answers, an error included, the fingerprint is reserved after it.
  pub known-process_ly_event : known o (own_fp o ly w) (process_ly_event o ly w).0 ≡ true
  known-process_ly_event = elim (Option-cases (get w.store.event_maps (own_fp o ly w))) [
    | inr (row, seen) ↦ rw (process_ly_event_seen o ly w seen) (ap is_some seen)
    | inl new ↦
        let start : known o (own_fp o ly w) (reserved_world o ly w new) ≡ true =
          ap is_some (get-put_self w.store.event_maps (own_fp o ly w) _) in
        rw (process_ly_event_new o ly w new) (
          if-elim (λ (r : World × Result Ingested). known o (own_fp o ly w) r.0 ≡ true)
            o.deepsoc_enabled _ _ (λ _. known-ingest_upstream o (own_fp o ly w) _ _ _ start)
            (λ _. known-ingest_local o (own_fp o ly w) _ _ _ start))
  ]

  abbrev pub once : World
  once = (process_ly_event o ly w).0

  -- Processing an event again, whatever the first time answered, skips it: the store and what was
  -- published stay as the first time left them.
  pub process_ly_event-twice :
      (row : EventMap) × (get once.store.event_maps (own_fp o ly w) ≡ some row)
      × (process_ly_event o ly once ≡ (
        record once { readings = once.readings + 1 },
        ok (duplicate (own_fp o ly w) (own_ly_id o ly w) row.deepsoc_event_id),
      ))
  process_ly_event-twice = elim (Option-cases (get once.store.event_maps (own_fp o ly w))) [
    | inl none_of ↦ cc known-process_ly_event
    | inr (row, seen) ↦ (row, seen, process_ly_event_seen o ly once seen)
  ]

  module _ (new : get w.store.event_maps (own_fp o ly w) ≡ none) (e : String)
      (enabled : o.deepsoc_enabled ≡ true)
      (refused : o.deepsoc_create (w.readings + 1) (ly_event_to_deepsoc o ly) (own_fp o ly w)
        ≡ err e) where
    -- Where an enabled upstream refuses an event with an unknown fingerprint, its error is returned,
    -- and the fingerprint is left reserved, with no event bound to it.
    pub process_ly_event_refused :
        ((process_ly_event o ly w).1 ≡ err e)
        × (get (process_ly_event o ly w).0.store.event_maps (own_fp o ly w)
            ≡ some (reserved (o.now w.readings) (own_fp o ly w)))
    process_ly_event_refused =
        let start = reserved_world o ly w new in
        rw
          (process_ly_event_new o ly w new
            ∙ if-true _ _ enabled
            ∙ ingest_upstream_refused o (own_fp o ly w) (own_ly_id o ly w)
                (ly_event_to_deepsoc o ly) start refused)
          (refl, get-put_self w.store.event_maps (own_fp o ly w) _)

    -- So the retry is answered as a duplicate of an event that does not exist.
    pub process_ly_event_retried :
        (process_ly_event o ly once).1 ≡ ok (duplicate (own_fp o ly w) (own_ly_id o ly w) "")
    unfolding reserved
    process_ly_event_retried =
        ap (λ (r : World × Result Ingested). r.1)
          (process_ly_event_seen o ly once process_ly_event_refused.1)
