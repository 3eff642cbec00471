-- ===== src/Domain.antt =====
-- internal/domain/models.go: the records that the stores keep. Times are nanoseconds since Go's
-- zero time, so that IsZero is `0`; int and int64 are 64-bit patterns.
pub mod Roles
use traffic_analysis.Base.{ℕ, Bool, String, List, Option}

pub record User : Type 0 where
  pub id : ℕ
  pub user_id : String
  pub username : String
  pub nickname : String
  pub email : String
  pub phone : String
  pub password : String
  pub role : String
  pub is_active : Bool
  pub last_login_at : Option ℕ
  pub created_at : ℕ
  pub updated_at : ℕ

pub record Ioc : Type 0 where
  pub ioc_type : String
  pub value : String
  pub role : String

pub record Event : Type 0 where
  pub id : ℕ
  pub event_id : String
  pub event_name : String
  pub title : String
  pub message : String
  pub context : String
  pub source : String
  pub severity : String
  pub category : String
  pub event_status : String
  pub current_round : ℕ
  pub observables : List Ioc
  pub created_at : ℕ
  pub updated_at : ℕ

pub record Message : Type 0 where
  pub id : ℕ
  pub message_id : String
  pub event_id : String
  pub user_id : String
  pub user_nickname : String
  pub message_from : String
  pub message_type : String
  pub message_content : String
  pub round_id : ℕ
  pub message_category : String
  pub sender_type : String
  pub chat_session_id : String
  pub created_at : ℕ

pub record Task : Type 0 where
  pub id : ℕ
  pub task_id : String
  pub event_id : String
  pub task_name : String
  pub task_type : String
  pub task_description : String
  pub task_status : String
  pub task_priority : String
  pub assigned_to : String
  pub task_assignee : String
  pub round_id : ℕ
  pub created_at : ℕ
  pub updated_at : ℕ

pub record Action : Type 0 where
  pub id : ℕ
  pub action_id : String
  pub task_id : String
  pub event_id : String
  pub round_id : ℕ
  pub action_name : String
  pub action_type : String
  pub action_assignee : String
  pub action_status : String
  pub action_result : String
  pub created_at : ℕ
  pub updated_at : ℕ

pub record Command : Type 0 where
  pub id : ℕ
  pub command_id : String
  pub action_id : String
  pub task_id : String
  pub event_id : String
  pub round_id : ℕ
  pub command_name : String
  pub command_type : String
  pub command_assignee : String
  pub command_entity : String
  pub command_params : String
  pub command_status : String
  pub command_result : String
  pub created_at : ℕ
  pub updated_at : ℕ

pub record Execution : Type 0 where
  pub id : ℕ
  pub execution_id : String
  pub event_id : String
  pub task_id : String
  pub action_id : String
  pub round_id : ℕ
  pub command_id : String
  pub execution_status : String
  pub execution_result : String
  pub execution_summary : String
  pub ai_summary : String
  pub command_name : String
  pub command_type : String
  pub command_entity : String
  pub command_params : String
  pub created_at : ℕ
  pub updated_at : ℕ

pub record Summary : Type 0 where
  pub id : ℕ
  pub event_id : String
  pub round_id : ℕ
  pub event_summary : String
  pub created_at : ℕ
  pub updated_at : ℕ

pub record EventMap : Type 0 where
  pub fingerprint : String
  pub ly_event_id : String
  pub deepsoc_event_id : String
  pub created_at : ℕ

pub record SyncCursor : Type 0 where
  pub name : String
  pub last_ts : String
  pub updated_at : ℕ

pub record PushedEvent : Type 0 where
  pub ly_event_id : String
  pub idempotency_key : String
  pub deepsoc_event_id : String
  pub status : String
  pub attempts : ℕ
  pub last_error : String
  pub created_at : ℕ
  pub updated_at : ℕ

pub record AuditLog : Type 0 where
  pub id : ℕ
  pub actor : String
  pub action : String
  pub target : String
  pub meta : String
  pub created_at : ℕ
