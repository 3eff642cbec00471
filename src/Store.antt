-- ===== src/Store.antt =====
-- internal/store/memory.go: the state of MemoryStore. Each method holds the store's lock from its
-- first line to its last, so a method is one step on this record. The clock's reading and the
-- random part of a new id are arguments of the methods that use them.
pub mod Patch
pub mod Users
pub mod Events
pub mod Rows
pub mod Messages
pub mod Work
pub mod Sync
pub mod Trace
use traffic_analysis.Base.{
  ◌≡◌, refl, ◌⊎◌, inl, inr, ℕ, true, String, List, [], ◌==◌, if◌then◌else◌, ◌=ℕ◌, none,
}
use traffic_analysis.Dict.{Dict, put}
use traffic_analysis.Domain.{
  User, Event, Message, Task, Action, Command, Execution, Summary, EventMap, SyncCursor,
  PushedEvent, AuditLog,
}

-- (T, error): the error by its text.
pub data Result {ℓ} (A : Type ℓ) : Type ℓ where
  ok : A → Result A
  err : String → Result A

pub Result-cases {ℓ} :
    {A : Type ℓ} (r : Result A) → ((a : A) × (r ≡ ok a)) ⊎ ((e : String) × (r ≡ err e))
Result-cases (ok a) = inl (a, refl)
Result-cases (err e) = inr (e, refl)

pub record MemoryStore : Type 0 where
  pub users_by_id : Dict User
  pub users_by_username : Dict String
  pub user_seq : ℕ
  pub events : Dict Event
  pub event_seq : ℕ
  pub messages_by_event : Dict (List Message)
  pub message_seq : ℕ
  pub tasks_by_event : Dict (List Task)
  pub actions_by_event : Dict (List Action)
  pub commands_by_event : Dict (List Command)
  pub exec_by_event : Dict (List Execution)
  pub summaries_by_event : Dict (List Summary)
  pub task_seq : ℕ
  pub action_seq : ℕ
  pub command_seq : ℕ
  pub exec_seq : ℕ
  pub summary_seq : ℕ
  pub event_maps : Dict EventMap
  pub cursors : Dict SyncCursor
  pub pushed : Dict PushedEvent
  pub audits : List AuditLog
  pub audit_seq : ℕ

unfoldable pub admin : ℕ → User
admin now = record {
  id = 1;
  user_id = "admin";
  username = "admin";
  nickname = "管理员";
  email = "admin@example.local";
  phone = "";
  password = "admin";
  role = "admin";
  is_active = true;
  last_login_at = none;
  created_at = now;
  updated_at = now;
}

unfoldable pub new_memory_store : ℕ → MemoryStore
unfolding admin
new_memory_store now = record {
  users_by_id = put [] "admin" (admin now);
  users_by_username = put [] "admin" "admin";
  user_seq = 1;
  events = [];
  event_seq = 0;
  messages_by_event = [];
  message_seq = 0;
  tasks_by_event = [];
  actions_by_event = [];
  commands_by_event = [];
  exec_by_event = [];
  summaries_by_event = [];
  task_seq = 0;
  action_seq = 0;
  command_seq = 0;
  exec_seq = 0;
  summary_seq = 0;
  event_maps = [];
  cursors = [];
  pushed = [];
  audits = [];
  audit_seq = 0;
}

-- if s == "" { s = d }
unfoldable pub default_text : String → String → String
default_text s d = if s == "" then d else s

-- if n == 0 { n = d }; also if t.IsZero() { t = d }
unfoldable pub default_number : ℕ → ℕ → ℕ
default_number n d = if n =ℕ 0 then d else n
