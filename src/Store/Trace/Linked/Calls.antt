-- ===== src/Store/Trace/Linked/Calls.antt =====
-- What each call that adds or changes rows does to the link between rows and events.
use traffic_analysis.Base.{
  ℕ, String, List, ◌≡◌, ◌∙◌, refl, arith, ap, inl, inr, Option-cases, inc64,
}
use traffic_analysis.Dict.{get, is_some}
use traffic_analysis.Value.{Fields}
use traffic_analysis.Domain.{Message, Task, Action, Command, Execution, Summary}
use traffic_analysis.Domain.Roles.{normalize_message}
use traffic_analysis.Store.{MemoryStore}
use traffic_analysis.Store.Rows.Linked.{IsLinked, append_row-IsLinked, update_visit-IsLinked}
use traffic_analysis.Store.Messages.{added_message, add_message}
use traffic_analysis.Store.Work.{
  added_task, add_task, patched_task, update_task, added_action, add_action, patched_action,
  update_action, added_command, add_command, patched_command, update_command, added_execution,
  add_execution, added_summary, add_summary,
}

event_id-added_message :
    (now : ℕ) (fresh : String) (seq : ℕ) (m : Message)
    → (added_message now fresh seq m).event_id ≡ m.event_id
unfolding added_message normalize_message
event_id-added_message now fresh seq m = ground arith

module _ (s : MemoryStore) where
  pub add_message-IsLinked :
      (now : ℕ) (fresh : String) (m : Message)
      → IsLinked (λ (r : Message). r.event_id) s.events s.messages_by_event
      → IsLinked
          (λ (r : Message). r.event_id)
          s.events
          (add_message now fresh m s).0.messages_by_event
  unfolding add_message
  add_message-IsLinked now fresh m v = elim (Option-cases (get s.events m.event_id)) [
    | inl missing ↦ rw (missing, add_message) v
    | inr (e, there) ↦
        let m' = added_message now fresh (inc64 s.message_seq) m in
        let same : m'.event_id ≡ m.event_id =
          event_id-added_message now fresh (inc64 s.message_seq) m in
        rw (there, add_message)
          (append_row-IsLinked (λ (r : Message). r.event_id) m'.event_id m' v
            (ap (λ k. is_some (get s.events k)) same ∙ ap is_some there) refl)
  ]

  pub add_task-IsLinked :
      (now : ℕ) (fresh : String) (r : Task)
      → IsLinked (λ (r : Task). r.event_id) s.events s.tasks_by_event
      → IsLinked (λ (r : Task). r.event_id) s.events (add_task now fresh r s).0.tasks_by_event
  unfolding add_task added_task
  add_task-IsLinked now fresh r v = elim (Option-cases (get s.events r.event_id)) [
    | inl missing ↦ rw (missing, add_task) v
    | inr (e, there) ↦
        rw (there, add_task) (append_row-IsLinked _ r.event_id _ v (ap is_some there) refl)
  ]

  pub update_task-IsLinked :
      (now : ℕ) (visit : List String) (id : String) (patch : Fields)
      → IsLinked (λ (r : Task). r.event_id) s.events s.tasks_by_event
      → IsLinked
          (λ (r : Task). r.event_id)
          s.events
          (update_task now visit id patch s).0.tasks_by_event
  unfolding update_task patched_task
  update_task-IsLinked now visit id patch v =
      update_visit-IsLinked (λ (r : Task). r.event_id) _ (patched_task now patch) (λ r. refl) visit
        v

  pub add_action-IsLinked :
      (now : ℕ) (fresh : String) (r : Action)
      → IsLinked (λ (r : Action). r.event_id) s.events s.actions_by_event
      → IsLinked (λ (r : Action). r.event_id) s.events (add_action now fresh r s).0.actions_by_event
  unfolding add_action added_action
  add_action-IsLinked now fresh r v = elim (Option-cases (get s.events r.event_id)) [
    | inl missing ↦ rw (missing, add_action) v
    | inr (e, there) ↦
        rw (there, add_action) (append_row-IsLinked _ r.event_id _ v (ap is_some there) refl)
  ]

  pub update_action-IsLinked :
      (now : ℕ) (visit : List String) (id : String) (patch : Fields)
      → IsLinked (λ (r : Action). r.event_id) s.events s.actions_by_event
      → IsLinked
          (λ (r : Action). r.event_id)
          s.events
          (update_action now visit id patch s).0.actions_by_event
  unfolding update_action patched_action
  update_action-IsLinked now visit id patch v =
      update_visit-IsLinked (λ (r : Action). r.event_id) _ (patched_action now patch) (λ r. refl)
        visit v

  pub add_command-IsLinked :
      (now : ℕ) (fresh : String) (r : Command)
      → IsLinked (λ (r : Command). r.event_id) s.events s.commands_by_event
      → IsLinked
          (λ (r : Command). r.event_id)
          s.events
          (add_command now fresh r s).0.commands_by_event
  unfolding add_command added_command
  add_command-IsLinked now fresh r v = elim (Option-cases (get s.events r.event_id)) [
    | inl missing ↦ rw (missing, add_command) v
    | inr (e, there) ↦
        rw (there, add_command) (append_row-IsLinked _ r.event_id _ v (ap is_some there) refl)
  ]

  pub update_command-IsLinked :
      (now : ℕ) (visit : List String) (id : String) (patch : Fields)
      → IsLinked (λ (r : Command). r.event_id) s.events s.commands_by_event
      → IsLinked
          (λ (r : Command). r.event_id)
          s.events
          (update_command now visit id patch s).0.commands_by_event
  unfolding update_command patched_command
  update_command-IsLinked now visit id patch v =
      update_visit-IsLinked (λ (r : Command). r.event_id) _ (patched_command now patch) (λ r. refl)
        visit v

  pub add_execution-IsLinked :
      (now : ℕ) (fresh : String) (r : Execution)
      → IsLinked (λ (r : Execution). r.event_id) s.events s.exec_by_event
      → IsLinked
          (λ (r : Execution). r.event_id)
          s.events
          (add_execution now fresh r s).0.exec_by_event
  unfolding add_execution added_execution
  add_execution-IsLinked now fresh r v = elim (Option-cases (get s.events r.event_id)) [
    | inl missing ↦ rw (missing, add_execution) v
    | inr (e, there) ↦
        rw (there, add_execution) (append_row-IsLinked _ r.event_id _ v (ap is_some there) refl)
  ]

  pub add_summary-IsLinked :
      (now : ℕ) (r : Summary)
      → IsLinked (λ (r : Summary). r.event_id) s.events s.summaries_by_event
      → IsLinked (λ (r : Summary). r.event_id) s.events (add_summary now r s).0.summaries_by_event
  unfolding add_summary added_summary
  add_summary-IsLinked now r v = elim (Option-cases (get s.events r.event_id)) [
    | inl missing ↦ rw (missing, add_summary) v
    | inr (e, there) ↦
        rw (there, add_summary) (append_row-IsLinked _ r.event_id _ v (ap is_some there) refl)
  ]
