-- ===== src/Service/Create.antt =====
-- internal/service/services.go: CreateEventFromRequest and the observables it reads from a body.
use traffic_analysis.Base.{◌+◌, String, List, [], ◌∷◌, ◌==◌, if◌then◌else◌}
use traffic_analysis.Value.{
  Value, Fields, Items, obj, arr, done, item, at, as_string, first_non_empty,
}
use traffic_analysis.Domain.{Event, Ioc}
use traffic_analysis.Store.{Result, ok, err}
use traffic_analysis.Store.Events.{create_event}
use traffic_analysis.Service.{Outside, World, created, publish, notify_created}

unfoldable pub observable_of : Fields → Ioc
observable_of m = record {
  ioc_type = as_string (at m "type");
  value = as_string (at m "value");
  role = as_string (at m "role");
}

-- The loop over the items: what is no map is passed over.
unfoldable pub observables_of_items : Items → List Ioc
observables_of_items done = []
observables_of_items (item (obj m) rest) = observable_of m ∷ observables_of_items rest
observables_of_items (item _ rest) = observables_of_items rest

unfoldable pub observables_of : Value → List Ioc
unfolding observables_of_items
observables_of (arr items) = observables_of_items items
observables_of _ = []

unfoldable pub requested_event : String → Fields → Event
requested_event event_id body = record {
  id = 0;
  event_id = event_id;
  event_name =
      first_non_empty (as_string (at body "event_name") ∷ as_string (at body "title") ∷ []);
  title = as_string (at body "title");
  message = as_string (at body "message");
  context = as_string (at body "context");
  source = first_non_empty (as_string (at body "source") ∷ "manual" ∷ []);
  severity = first_non_empty (as_string (at body "severity") ∷ "medium" ∷ []);
  category = as_string (at body "category");
  event_status = "pending";
  current_round = 0;
  observables = observables_of (at body "observables");
  created_at = 0;
  updated_at = 0;
}

module _ (o : Outside) where
  unfoldable pub finish_request : World → Result Event → World × Result Event
  finish_request w (err e) = (w, err e)
  finish_request w (ok e) = (
    publish o "event.created" e.event_id (first_non_empty (e.source ∷ "manual" ∷ [])) (created e)
        (notify_created o e w),
    ok e,
  )

  unfoldable pub create_event_from_request : Fields → World → World × Result Event
  unfolding finish_request
  create_event_from_request body w =
      let n = w.readings in
      let given = as_string (at body "event_id") in
      let event_id = if given == "" then o.new_id n "evt" else given in
      let (s, result) =
        create_event (o.now (n + 1)) (o.new_id (n + 1) "evt") (requested_event event_id body)
          w.store in
      if as_string (at body "message") == ""
      then (w, err "事件消息不能为空")
      else finish_request (record w { store = s; readings = n + 2 }) result
