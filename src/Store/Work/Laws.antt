-- ===== src/Store/Work/Laws.antt =====
-- internal/store/memory.go: what UpdateTask, UpdateAction and UpdateCommand do to the rows.
use traffic_analysis.Base.{ℕ, String, List, ◌==◌}
use traffic_analysis.Value.{Fields}
use traffic_analysis.Domain.{Task, Action, Command}
use traffic_analysis.Store.{MemoryStore}
use traffic_analysis.Store.Rows.Laws.{Outcome, update_visit-Outcome}
use traffic_analysis.Store.Work.{
  patched_task, update_task, patched_action, update_action, patched_command, update_command,
}

module _ (now : ℕ) (visit : List String) (id : String) (patch : Fields) (s : MemoryStore) where
  abbrev pub TaskOutcome : Type 0
  TaskOutcome =
      Outcome (λ (t : Task). t.task_id == id) (patched_task now patch) s.tasks_by_event visit
        (update_task now visit id patch s).0.tasks_by_event (update_task now visit id patch s).1

  abbrev pub ActionOutcome : Type 0
  ActionOutcome =
      Outcome (λ (a : Action). a.action_id == id) (patched_action now patch) s.actions_by_event
        visit (update_action now visit id patch s).0.actions_by_event
        (update_action now visit id patch s).1

  abbrev pub CommandOutcome : Type 0
  CommandOutcome =
      Outcome (λ (c : Command). c.command_id == id) (patched_command now patch) s.commands_by_event
        visit (update_command now visit id patch s).0.commands_by_event
        (update_command now visit id patch s).1

  -- An update changes the first row with the id in the first visited event that has one, by the
  -- patch, and gives that row; where no visited event has such a row it gives none and changes no
  -- row. So for tasks, actions and commands.
  pub update-Outcome : TaskOutcome × ActionOutcome × CommandOutcome
  unfolding update_task update_action update_command
  update-Outcome = (
    update_visit-Outcome _ (patched_task now patch) visit s.tasks_by_event,
    update_visit-Outcome _ (patched_action now patch) visit s.actions_by_event,
    update_visit-Outcome _ (patched_command now patch) visit s.commands_by_event,
  )
