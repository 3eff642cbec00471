-- ===== src/Store/Trace.antt =====
-- internal/store/store.go, internal/store/memory.go: the calls of the Store interface that change
-- the store, and the histories of a store. The lock makes a history a sequence of calls.
pub mod Frame
pub mod History
pub mod Linked
pub mod Messages
pub mod Leads
pub mod Tasks
use traffic_analysis.Base.{ℕ, String, Option, List, [], ◌∷◌}
use traffic_analysis.Value.{Fields}
use traffic_analysis.Domain.{
  User, Event, Message, Task, Action, Command, Execution, Summary, SyncCursor, PushedEvent,
  AuditLog,
}
use traffic_analysis.Store.{MemoryStore}
use traffic_analysis.Store.Users.{create_user, update_user, delete_user}
use traffic_analysis.Store.Events.{create_event, update_event}
use traffic_analysis.Store.Messages.{add_message}
use traffic_analysis.Store.Work.{
  add_task, update_task, add_action, update_action, add_command, update_command, add_execution,
  add_summary,
}
use traffic_analysis.Store.Sync.{
  reserve_fingerprint, bind_event_map, save_cursor, save_pushed_event, add_audit_log,
}

pub data Op : Type 0 where
  creates_user : ℕ → String → User → Op
  updates_user : (String → Option ℕ) → ℕ → String → Fields → Op
  deletes_user : String → Op
  creates_event : ℕ → String → Event → Op
  updates_event : ℕ → String → Fields → Op
  adds_message : ℕ → String → Message → Op
  adds_task : ℕ → String → Task → Op
  updates_task : ℕ → List String → String → Fields → Op
  adds_action : ℕ → String → Action → Op
  updates_action : ℕ → List String → String → Fields → Op
  adds_command : ℕ → String → Command → Op
  updates_command : ℕ → List String → String → Fields → Op
  adds_execution : ℕ → String → Execution → Op
  adds_summary : ℕ → Summary → Op
  reserves : ℕ → String → Op
  binds : ℕ → String → String → String → Op
  saves_cursor : ℕ → SyncCursor → Op
  saves_pushed : ℕ → PushedEvent → Op
  adds_audit : ℕ → AuditLog → Op

unfoldable pub step : Op → MemoryStore → MemoryStore
step (creates_user now fresh u) s = (create_user now fresh u s).0
step (updates_user parse now id patch) s = (update_user parse now id patch s).0
step (deletes_user id) s = (delete_user id s).0
step (creates_event now fresh e) s = (create_event now fresh e s).0
step (updates_event now id patch) s = (update_event now id patch s).0
step (adds_message now fresh m) s = (add_message now fresh m s).0
step (adds_task now fresh t) s = (add_task now fresh t s).0
step (updates_task now visit id patch) s = (update_task now visit id patch s).0
step (adds_action now fresh a) s = (add_action now fresh a s).0
step (updates_action now visit id patch) s = (update_action now visit id patch s).0
step (adds_command now fresh c) s = (add_command now fresh c s).0
step (updates_command now visit id patch) s = (update_command now visit id patch s).0
step (adds_execution now fresh e) s = (add_execution now fresh e s).0
step (adds_summary now sm) s = (add_summary now sm s).0
step (reserves now fp) s = (reserve_fingerprint now fp s).0
step (binds now fp ly_id deepsoc_id) s = bind_event_map now fp ly_id deepsoc_id s
step (saves_cursor now c) s = save_cursor now c s
step (saves_pushed now pe) s = save_pushed_event now pe s
step (adds_audit now a) s = (add_audit_log now a s).0

unfoldable pub run : List Op → MemoryStore → MemoryStore
run [] s = s
run (op ∷ ops) s = run ops (step op s)
