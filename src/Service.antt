-- ===== src/Service.antt =====
-- internal/service: the services over the store. What a service takes from outside stands in
-- `Outside`: the clock and random ids by the number of the reading, the encodings and the digest of
-- Go's library, and the answers of the two remote systems by the number of the call.
pub mod Mapping
pub mod Prompts
pub mod Ingest
pub mod Sync
pub mod Create
pub mod Agents
pub mod Calls
use Prim.Native.String.{◌++◌ as append}
use traffic_analysis.Base.{
  ℕ, ◌+◌, Bool, true, false, String, Option, none, some, List, [], ◌∷◌, ◌++◌, if◌then◌else◌,
}
use traffic_analysis.Value.{Value, Fields, end, field, str, obj, first_non_empty}
use traffic_analysis.Domain.{Event, Message}
use traffic_analysis.Domain.Roles.{role_system}
use traffic_analysis.Store.{MemoryStore, Result, ok, err}
use traffic_analysis.Store.Messages.{add_message}

pub record Outside : Type 0 where
  -- time.Now().UTC()
  pub now : ℕ → ℕ
  -- newID(prefix)
  pub new_id : ℕ → String → String
  -- hex.EncodeToString(sha256.Sum256(·))
  pub digest : String → String
  -- json.Marshal
  pub marshal : Value → String
  -- the time in the format RFC3339Nano
  pub format : ℕ → String
  -- the time less so many seconds, in the format RFC3339
  pub before : ℕ → ℕ → String
  -- Services.DeepSOC: whether its address is set, and its answers
  pub deepsoc_enabled : Bool
  pub deepsoc_create : ℕ → Event → String → Result Fields
  -- Services.FlowShadow
  pub flowshadow_list : ℕ → String → ℕ → Result (List Fields)
  -- Services.Queue is set and enabled
  pub queue_enabled : Bool

-- The payloads that the services publish.
pub data Payload : Type 0 where
  upstream : String → String → Fields → Payload
  ingested : String → String → Event → Payload
  completed : String → String → ℕ → ℕ → ℕ → Payload
  created : Event → Payload
  agent_message : Message → Payload

-- internal/mq/mq.go
pub record EventMessage : Type 0 where
  pub type_name : String
  pub event_id : String
  pub source : String
  pub payload : Payload
  pub created_at : ℕ

-- The store, the number of readings and calls so far, and what was handed to the queue.
pub record World : Type 0 where
  pub store : MemoryStore
  pub readings : ℕ
  pub published : List EventMessage

module _ (o : Outside) where
  -- A failure of the queue is dropped by every caller.
  unfoldable pub publish : String → String → String → Payload → World → World
  publish routing_key event_id source payload w =
      let message : EventMessage = record {
        type_name = routing_key;
        event_id = event_id;
        source = source;
        payload = payload;
        created_at = o.now w.readings;
      } in
      if o.queue_enabled
      then record w { readings = w.readings + 1; published = w.published ++ message ∷ [] }
      else w

  unfoldable pub standard_content : ℕ → Value → String
  standard_content reading data_value =
      o.marshal
        (obj (field "timestamp" (str (o.format (o.now reading))) (field "data" data_value end)))

  -- responseText(text, nil)
  unfoldable pub response_text : String → Value
  response_text text = obj (field "response_text" (str text) end)

  -- The notification that is added to a new event; its error is dropped.
  unfoldable pub notification : ℕ → Event → Message
  notification reading e = record {
    id = 0;
    message_id = "";
    event_id = e.event_id;
    user_id = "";
    user_nickname = "";
    message_from = role_system;
    message_type = "system_notification";
    message_content =
        standard_content reading
          (response_text (append "系统创建了安全事件: " (first_non_empty (e.event_name ∷ "未命名事件" ∷ []))));
    round_id = 1;
    message_category = "agent";
    sender_type = "system";
    chat_session_id = "";
    created_at = 0;
  }

  unfoldable pub notify_created : Event → World → World
  notify_created e w =
      let n = w.readings in
      record w {
        store = (add_message (o.now (n + 1)) (o.new_id n "msg") (notification n e) w.store).0;
        readings = n + 2;
      }
