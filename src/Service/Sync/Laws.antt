-- ===== src/Service/Sync/Laws.antt =====
-- internal/service/services.go: what a sync does to the record of pushed events.
use traffic_analysis.Base.{
  ℕ, zero, suc, ◌+◌, true, false, String, Option, none, some, ◌≡◌, refl, arith, ap, ◌∙◌, sym, inl,
  inr, Bool-cases,
}
use traffic_analysis.Dict.{get, is_some}
use traffic_analysis.Dict.Laws.{get-put_self, is_some-get-put}
use traffic_analysis.Value.{Fields, at, as_string}
use traffic_analysis.Domain.{PushedEvent}
use traffic_analysis.Store.{ok, err, Result-cases}
use traffic_analysis.Store.Events.{create_event}
use traffic_analysis.Store.Messages.{add_message}
use traffic_analysis.Store.Sync.{
  reserve_fingerprint, bind_event_map, already_pushed, save_pushed_event,
}
use traffic_analysis.Service.{Outside, World, publish, notify_created}
use traffic_analysis.Service.Mapping.{ly_event_to_deepsoc, make_idempotency_key}
use traffic_analysis.Service.Ingest.{
  Ingested, deepsoc_id_of, ingest_upstream, ingest_local, process_ly_event,
}
use traffic_analysis.Service.Ingest.Laws.{
  own_fp, process_ly_event_refused, process_ly_event_retried,
}
use traffic_analysis.Service.Sync.{
  Progress, newer, record_id_of, attempts, new_record, settle, sync_item,
}

module _ (o : Outside) where
  pushed-process_ly_event :
      (ly : Fields) (w : World) → (process_ly_event o ly w).0.store.pushed ≡ w.store.pushed
  unfolding process_ly_event ingest_upstream ingest_local reserve_fingerprint bind_event_map
      create_event add_message publish notify_created
  pushed-process_ly_event ly w = ground arith

  module _ (ev : Fields) where
    pub attempts_ok :
        (left i : ℕ) (pe : PushedEvent) (last : Option String) (w : World) {res : Ingested}
        → (process_ly_event o ev w).1 ≡ ok res
        → attempts o (suc left) i ev pe last w ≡ (
          (process_ly_event o ev w).0,
          record pe { attempts = i + 1; status = "SUCCESS"; deepsoc_event_id = deepsoc_id_of res },
          none,
        )
    unfolding attempts
    attempts_ok left i pe last w h = rw (h, attempts)

    pub attempts_err :
        (left i : ℕ) (pe : PushedEvent) (last : Option String) (w : World) {e : String}
        → (process_ly_event o ev w).1 ≡ err e
        → attempts o (suc left) i ev pe last w
          ≡ attempts o left
              (i + 1)
              ev
              (record pe { attempts = i + 1 })
              (some e)
              (process_ly_event o ev w).0
    unfolding attempts
    attempts_err left i pe last w h = rw (h, attempts)

    -- The attempts leave the record of pushed events alone, and work for one record.
    attempts-keeps :
        (left i : ℕ) (pe : PushedEvent) (last : Option String) (w : World)
        → ((attempts o left i ev pe last w).0.store.pushed ≡ w.store.pushed)
          × ((attempts o left i ev pe last w).1.ly_event_id ≡ pe.ly_event_id)
    unfolding attempts
    attempts-keeps zero i pe last w = (refl, refl)
    attempts-keeps (suc left) i pe last w = elim (Result-cases (process_ly_event o ev w).1) [
      | inl (res, h) ↦ rw (attempts_ok left i pe last w h) (pushed-process_ly_event ev w, refl)
      | inr (e, h) ↦
          let (pushed, id) =
            attempts-keeps left (i + 1) (record pe { attempts = i + 1 }) (some e)
              (process_ly_event o ev w).0 in
          rw (attempts_err left i pe last w h) (pushed ∙ pushed-process_ly_event ev w, id)
    ]

    -- An event with an unknown fingerprint that an enabled upstream refuses at the first attempt is,
    -- with two attempts or more, recorded as a success with no id and no last error.
    pub attempts_refused :
        (more : ℕ) (pe : PushedEvent) (w : World) {e : String}
        → get w.store.event_maps (own_fp o ev w) ≡ none
        → o.deepsoc_enabled ≡ true
        → o.deepsoc_create (w.readings + 1) (ly_event_to_deepsoc o ev) (own_fp o ev w) ≡ err e
        → ((attempts o (suc (suc more)) 0 ev pe none w).1.status ≡ "SUCCESS")
          × ((attempts o (suc (suc more)) 0 ev pe none w).1.deepsoc_event_id ≡ "")
          × ((attempts o (suc (suc more)) 0 ev pe none w).2 ≡ none)
    unfolding deepsoc_id_of
    attempts_refused more pe w {e} new enabled refused =
        let first = (process_ly_event_refused o ev w new e enabled refused).0 in
        let second = process_ly_event_retried o ev w new e enabled refused in
        rw
          (attempts_err (suc more) 0 pe none w first
            ∙ attempts_ok more 1 (record pe { attempts = 0 + 1 }) (some e)
                (process_ly_event o ev w).0 second)
          (refl, refl, refl)

  pushed-settle :
      (pe : PushedEvent) (last : Option String) (w : World) (p : Progress)
      → (already_pushed (settle o pe last w p).0.store pe.ly_event_id ≡ true)
        × ((id : String)
            → already_pushed w.store id ≡ true
            → already_pushed (settle o pe last w p).0.store id ≡ true)
  unfolding settle already_pushed save_pushed_event
  pushed-settle pe none w p = (
    ap is_some (get-put_self w.store.pushed pe.ly_event_id _),
    λ id h. is_some-get-put w.store.pushed pe.ly_event_id id _ h,
  )
  pushed-settle pe (some e) w p = (
    ap is_some (get-put_self w.store.pushed pe.ly_event_id _),
    λ id h. is_some-get-put w.store.pushed pe.ly_event_id id _ h,
  )

  module _ (retries : ℕ) (ev : Fields) (w : World) (p : Progress) where
    abbrev pub tried : World × PushedEvent × Option String
    tried =
        attempts o retries 0 ev (new_record o (record_id_of o ev) (make_idempotency_key o ev)) none
          w

    abbrev pub moved : Progress
    moved = record p { newest = newer p.newest (as_string (at ev "time")) }

    pub sync_item_done :
        already_pushed w.store (record_id_of o ev) ≡ true
        → sync_item o retries ev (w, p) ≡ (w, moved)
    unfolding sync_item
    sync_item_done h = rw (h, sync_item)

    pub sync_item_new :
        already_pushed w.store (record_id_of o ev) ≡ false
        → sync_item o retries ev (w, p) ≡ settle o tried.1 tried.2 tried.0 moved
    unfolding sync_item
    sync_item_new h = rw (h, sync_item)

    -- After a round its event is recorded, and what was recorded before still is.
    pub sync_item-pushed :
        (already_pushed (sync_item o retries ev (w, p)).0.store (record_id_of o ev) ≡ true)
        × ((id : String)
            → already_pushed w.store id ≡ true
            → already_pushed (sync_item o retries ev (w, p)).0.store id ≡ true)
    unfolding new_record already_pushed
    sync_item-pushed = elim (Bool-cases (already_pushed w.store (record_id_of o ev))) [
      | inl h ↦ rw (sync_item_done h) (h, λ id k. k)
      | inr h ↦
          let (own, grow) = pushed-settle tried.1 tried.2 tried.0 moved in
          let (same, id) = attempts-keeps ev retries 0 _ none w in
          rw (sync_item_new h) (
            ap (already_pushed (settle o tried.1 tried.2 tried.0 moved).0.store) (sym id) ∙ own,
            λ j k. grow j (ap (λ m. is_some (get m j)) same ∙ k),
          )
    ]
