-- ===== src/Worker/Laws.antt =====
-- internal/worker/rabbit_worker.go: what comes of a delivery, on each of its branches.
use text.Mathlib.Text.{starts_with}
use traffic_analysis.Base.{
  Bool, true, false, String, none, ◌==◌, if◌then◌else◌, ◌≡◌, ◌≢◌, refl, arith, ap,
}
use traffic_analysis.Dict.{get}
use traffic_analysis.Domain.{Message}
use traffic_analysis.Store.{MemoryStore, Result, ok, err}
use traffic_analysis.Store.Messages.{add_message}
use traffic_analysis.Worker.{
  Wire, Tools, State, queue_notification, finish_add, decoded, handle_event_message, requeue,
  verdict, on_delivery,
}

-- A message for the store is one that names an event and is neither a front-end notification nor
-- an event's own.
abbrev pub is_for_store : String → Wire → Bool
is_for_store key msg =
    if msg.event_id == ""
    then false
    else if starts_with key "notifications.frontend."
    then false
    else if starts_with key "event."
    then false
    else true

module _ (t : Tools) (key body : String) (st : State) where
  -- A body that cannot be decoded changes nothing and goes back to the queue.
  pub on_delivery_undecoded :
      {e : String} → t.unmarshal body ≡ err e → on_delivery t key body st ≡ (st, requeue)
  unfolding on_delivery handle_event_message
  on_delivery_undecoded h = rw (h, on_delivery, handle_event_message)

  add_message_missing :
      (m : Message) (s : MemoryStore)
      → get s.events m.event_id ≡ none
      → add_message t.now t.new_id m s ≡ (s, err "event not found")
  unfolding add_message
  add_message_missing m s h = rw (h, add_message)

  module _ {msg : Wire} (read : t.unmarshal body ≡ ok msg) where
    -- A message for the store whose event is missing changes nothing and goes back to the queue.
    pub on_delivery_missing :
        is_for_store key msg ≡ true
        → get st.store.events msg.event_id ≡ none
        → on_delivery t key body st ≡ (st, requeue)
    unfolding on_delivery handle_event_message queue_notification
    on_delivery_missing mine missing =
        rw (read, on_delivery, handle_event_message)
          (ground (arith, add_message_missing (queue_notification t key msg) st.store missing))

  finish_add_requeued :
      (event_id : String) (m : Message)
      → (finish_add t event_id (add_message t.now t.new_id m st.store) st).1 ≢ none
      → (finish_add t event_id (add_message t.now t.new_id m st.store) st).0 ≡ st
  unfolding finish_add add_message
  finish_add_requeued event_id m h = ground arith

  decoded_requeued : (r : Result Wire) → (decoded t key r st).1 ≢ none → (decoded t key r st).0 ≡ st
  unfolding decoded
  decoded_requeued (err e) h = refl
  decoded_requeued (ok msg) h =
      ground (arith, finish_add_requeued msg.event_id (queue_notification t key msg))

  -- A delivery that goes back to the queue has changed nothing in the worker's state.
  pub on_delivery_requeued :
      (on_delivery t key body st).1 ≡ requeue → (on_delivery t key body st).0 ≡ st
  unfolding on_delivery handle_event_message
  on_delivery_requeued h = decoded_requeued (t.unmarshal body) (λ e. cc (ap verdict e))
