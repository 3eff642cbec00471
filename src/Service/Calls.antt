-- ===== src/Service/Calls.antt =====
-- internal/service/services.go: all that the services do to the store is calls of the store's
-- methods.
use traffic_analysis.Base.{◌+◌, String, ◌==◌, if-elim}
use traffic_analysis.Value.{Fields, at, as_string}
use traffic_analysis.Domain.{Event}
use traffic_analysis.Store.{Result, ok, err}
use traffic_analysis.Store.Sync.{reserve_fingerprint}
use traffic_analysis.Store.Trace.{step, creates_event, adds_message, reserves, binds}
use traffic_analysis.Store.Trace.Leads.{Leads, Leads-refl, Leads-trans, Leads-step}
use traffic_analysis.Service.{Outside, World, Payload, publish, notify_created}
use traffic_analysis.Service.Mapping.{fingerprint, ly_event_to_deepsoc}
use traffic_analysis.Service.Ingest.{
  Ingested, skip, finish_upstream, ingest_upstream, finish_local, ingest_local, process_ly_event,
}
use traffic_analysis.Service.Create.{finish_request, create_event_from_request}

module _ (o : Outside) where
  abbrev Moves : World → World → Type 0
  Moves w w' = Leads w.store w'.store

  publish-Moves :
      (key id source : String) (p : Payload) (w : World) → Moves w (publish o key id source p w)
  unfolding publish
  publish-Moves key id source p w =
      if-elim (Moves w) o.queue_enabled _ _ (λ _. Leads-refl w.store) (λ _. Leads-refl w.store)

  notify_created-Moves : (e : Event) (w : World) → Moves w (notify_created o e w)
  unfolding notify_created step
  notify_created-Moves e w = Leads-step (adds_message _ _ _) w.store

  finish_upstream-Moves :
      (fp ly_id : String) (r : Result Fields) (w : World)
      → Moves w (finish_upstream o fp ly_id r w).0
  unfolding finish_upstream step
  finish_upstream-Moves fp ly_id (err e) w = Leads-refl w.store
  finish_upstream-Moves fp ly_id (ok resp) w =
      Leads-trans (Leads-step (binds _ _ _ _) w.store) (publish-Moves _ _ _ _ _)

  ingest_upstream-Moves :
      (fp ly_id : String) (payload : Event) (w : World)
      → Moves w (ingest_upstream o fp ly_id payload w).0
  unfolding ingest_upstream
  ingest_upstream-Moves fp ly_id payload w =
      finish_upstream-Moves fp ly_id (o.deepsoc_create w.readings payload fp) _

  finish_local-Moves :
      (fp ly_id : String) (w : World) (r : Result Event) → Moves w (finish_local o fp ly_id w r).0
  unfolding finish_local step
  finish_local-Moves fp ly_id w (err e) = Leads-refl w.store
  finish_local-Moves fp ly_id w (ok e) =
      Leads-trans (Leads-step (binds _ _ _ _) w.store)
        (Leads-trans (notify_created-Moves e _) (publish-Moves _ _ _ _ _))

  ingest_local-Moves :
      (fp ly_id : String) (payload : Event) (w : World)
      → Moves w (ingest_local o fp ly_id payload w).0
  unfolding ingest_local step
  ingest_local-Moves fp ly_id payload w =
      Leads-trans (Leads-step (creates_event _ _ _) w.store) (finish_local-Moves fp ly_id _ _)

  module _ (ly : Fields) (w : World) where
    abbrev after_reserve : World
    after_reserve = record w {
      store = (reserve_fingerprint (o.now w.readings) (fingerprint o ly) w.store).0;
      readings = w.readings + 1;
    }

    pub process_ly_event-Moves : Moves w (process_ly_event o ly w).0
    unfolding process_ly_event step skip
    process_ly_event-Moves =
        let fp = fingerprint o ly in
        let ly_id = as_string (at ly "id") in
        let payload = ly_event_to_deepsoc o ly in
        Leads-trans (Leads-step (reserves (o.now w.readings) fp) w.store) (
          if-elim (λ (r : World × Result Ingested). Moves after_reserve r.0)
            (reserve_fingerprint (o.now w.readings) fp w.store).1 _ (skip o fp ly_id after_reserve)
            (λ _.
              if-elim (λ (r : World × Result Ingested). Moves after_reserve r.0) o.deepsoc_enabled
                (ingest_upstream o fp ly_id payload after_reserve)
                (ingest_local o fp ly_id payload after_reserve)
                (λ _. ingest_upstream-Moves fp ly_id payload after_reserve)
                (λ _. ingest_local-Moves fp ly_id payload after_reserve))
            (λ _. Leads-refl after_reserve.store))

  finish_request-Moves : (w : World) (r : Result Event) → Moves w (finish_request o w r).0
  unfolding finish_request
  finish_request-Moves w (err e) = Leads-refl w.store
  finish_request-Moves w (ok e) = Leads-trans (notify_created-Moves e w) (publish-Moves _ _ _ _ _)

  pub create_event_from_request-Moves :
      (body : Fields) (w : World) → Moves w (create_event_from_request o body w).0
  unfolding create_event_from_request step
  create_event_from_request-Moves body w =
      if-elim (λ (r : World × Result Event). Moves w r.0) (as_string (at body "message") == "")
        (w, err "事件消息不能为空") _ (λ _. Leads-refl w.store)
        (λ _. Leads-trans (Leads-step (creates_event _ _ _) w.store) (finish_request-Moves _ _))
