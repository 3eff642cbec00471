-- ===== src/Worker.antt =====
-- internal/worker/rabbit_worker.go: what the consumer does with a delivery. Decoding a body and
-- encoding a message for the clients are arguments, as are the clock and the random id.
pub mod Laws
use text.Mathlib.Text.{starts_with}
use traffic_analysis.Base.{
  ℕ, zero, suc, Bool, true, false, String, Option, none, some, List, [], ◌∷◌, ◌==◌, if◌then◌else◌,
}
use traffic_analysis.Base.Text.{trim_space}
use traffic_analysis.Value.{Value, Fields, str, obj, end, field}
use traffic_analysis.Domain.{Message}
use traffic_analysis.Domain.Roles.{normalize_message_from, sender_type}
use traffic_analysis.Hub.{Hub}
use traffic_analysis.Realtime.{broadcast_message}
use traffic_analysis.Store.{MemoryStore, Result, ok, err}
use traffic_analysis.Store.Messages.{add_message}

-- mq.EventMessage, as it is decoded from a body.
pub record Wire : Type 0 where
  pub event_id : String
  pub source : String
  pub payload : Value
  pub created_at : Value

pub record Tools : Type 0 where
  -- json.Unmarshal of a body: the message, or the error
  pub unmarshal : String → Result Wire
  -- service.StandardContent, at the reading of the clock
  pub standard_content : Value → String
  -- a message as the clients get it
  pub encode : Message → Value
  pub now : ℕ
  pub new_id : String

pub record State : Type 0 where
  pub store : MemoryStore
  pub publisher : Option Hub

-- firstNonEmpty of the worker, which trims.
unfoldable pub first_non_empty : List String → String
first_non_empty [] = ""
first_non_empty (v ∷ vs) = let rest = first_non_empty vs in if trim_space v == "" then rest else v

module _ (t : Tools) where
  unfoldable pub queue_notification : String → Wire → Message
  queue_notification routing_key msg =
      let from = normalize_message_from msg.source in
      record {
        id = 0;
        message_id = "";
        event_id = msg.event_id;
        user_id = "";
        user_nickname = "";
        message_from = from;
        message_type = "queue_notification";
        message_content = t.standard_content (
            obj (
              field "response_text" (str "异步队列已接收通知。") (
                field "routing_key" (str routing_key)
                  (field "source" (str msg.source) (field "created_at" msg.created_at end)))));
        round_id = 1;
        message_category = "agent";
        sender_type = sender_type from;
        chat_session_id = "";
        created_at = 0;
      }

  -- An error goes back to the loop, which hands the delivery back to the queue.
  finish_add : String → MemoryStore × Result Message → State → State × Option String
  finish_add event_id (s, ok m) st =
      (record { store = s; publisher = broadcast_message event_id (t.encode m) st.publisher }, none)
  finish_add event_id (s, err e) st = (record st { store = s }, some e)

  handle_message : String → Wire → State → State × Option String
  unfolding finish_add
  handle_message routing_key msg st =
      if msg.event_id == ""
      then (st, none)
      else if starts_with routing_key "notifications.frontend."
      then (record st { publisher = broadcast_message msg.event_id msg.payload st.publisher }, none)
      else if starts_with routing_key "event."
      then (st, none)
      else finish_add msg.event_id
          (add_message t.now t.new_id (queue_notification routing_key msg) st.store) st

  decoded : String → Result Wire → State → State × Option String
  unfolding handle_message
  decoded routing_key (err e) st = (st, some e)
  decoded routing_key (ok msg) st = handle_message routing_key msg st

  unfoldable pub handle_event_message : String → String → State → State × Option String
  unfolding decoded
  handle_event_message routing_key body st = decoded routing_key (t.unmarshal body) st

-- What the loop tells the broker of a delivery.
pub data Verdict : Type 0 where
  ack requeue : Verdict

abbrev pub verdict : Option String → Verdict
verdict none = ack
verdict (some e) = requeue

unfoldable pub on_delivery : Tools → String → String → State → State × Verdict
on_delivery t routing_key body st =
    let (st', e) = handle_event_message t routing_key body st in (st', verdict e)
