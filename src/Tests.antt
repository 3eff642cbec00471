-- ===== src/Tests.antt =====
-- Concrete records for the examples in the modules below.
pub mod Stores
pub mod Services
pub mod Hubs
pub mod Agents
pub mod Driving
pub mod Api
pub mod Routes
pub mod Ly
pub mod Autopilot
use traffic_analysis.Base.{ℕ, ◌+◌, Bool, true, false, String, List, [], ◌∷◌, none}
use traffic_analysis.Value.{Value, Fields, end, field, str}
use traffic_analysis.Domain.{User, Event, Message, Task}
use traffic_analysis.Store.{MemoryStore, Result, err, ok, new_memory_store}
use traffic_analysis.Service.{Outside, World}

abbrev pub user_named : String → String → User
user_named id name = record {
  id = 0;
  user_id = id;
  username = name;
  nickname = "";
  email = "";
  phone = "";
  password = "";
  role = "";
  is_active = true;
  last_login_at = none;
  created_at = 0;
  updated_at = 0;
}

abbrev pub event_of : String → Event
event_of id = record {
  id = 0;
  event_id = id;
  event_name = "";
  title = "";
  message = "scan";
  context = "";
  source = "";
  severity = "";
  category = "";
  event_status = "";
  current_round = 0;
  observables = [];
  created_at = 0;
  updated_at = 0;
}

abbrev pub message_to : String → String → Message
message_to event_id from = record {
  id = 0;
  message_id = "";
  event_id = event_id;
  user_id = "";
  user_nickname = "";
  message_from = from;
  message_type = "";
  message_content = "";
  round_id = 0;
  message_category = "";
  sender_type = "";
  chat_session_id = "";
  created_at = 0;
}

abbrev pub alert : Fields
alert = field "event_id" (str "e1") (field "id" (str "7") end)

abbrev pub refusal : ℕ → Event → String → Result Fields
refusal n e key = err "unavailable"

-- The upstream is on and refuses every event.
abbrev pub outside : Outside
outside = record {
  now = λ n. 100 + n;
  new_id = λ n prefix. prefix;
  digest = λ text. text;
  marshal = λ v. "";
  format = λ n. "";
  before = λ n seconds. "";
  deepsoc_enabled = true;
  deepsoc_create = refusal;
  flowshadow_list = λ n since size. ok (alert ∷ []);
  queue_enabled = true;
}

abbrev pub world : World
world = record { store = new_memory_store 1; readings = 0; published = [] }
