-- ===== src/Tests/Stores.antt =====
-- The store's theorems at concrete stores.
use traffic_analysis.Base.{
  ℕ, ◌≤◌, String, Option, none, some, List, [], ◌∷◌, ◌++◌, ◌≡◌, refl, ◌≢◌, arith, if◌then◌else◌,
  ◌==◌, ◌&&◌, inc64,
}
use traffic_analysis.Dict.{get, put}
use traffic_analysis.Value.{Fields, end, field, str}
use traffic_analysis.Domain.{Task, User, Event, PushedEvent}
use traffic_analysis.Store.{MemoryStore, new_memory_store, admin, default_text, default_number}
use traffic_analysis.Store.Users.{delete_user, create_user, update_user, get_user_by_username}
use traffic_analysis.Store.Users.Laws as UserLaws
use traffic_analysis.Store.Users.Laws.{
  IsIndexed, create_user-IsIndexed, create_user-takes_over, new_memory_store-IsIndexed,
}
use traffic_analysis.Store.Users.Changes.{update_user_found-IsIndexed, delete_user_found-IsIndexed}
use traffic_analysis.Store.Events.{create_event, created_event}
use traffic_analysis.Store.Events.Laws.{Keeps}
use traffic_analysis.Store.Messages.{add_message, list_messages}
use traffic_analysis.Store.Messages.Laws.{is_visible}
use traffic_analysis.Store.Sync.{reserve_fingerprint, save_pushed_event}
use traffic_analysis.Store.Work.{add_task}
use traffic_analysis.Store.Work.Laws.{update-Outcome, TaskOutcome, ActionOutcome, CommandOutcome}
use traffic_analysis.Store.Trace.{
  Op, run, step, creates_event, adds_message, reserves, updates_event,
}
use traffic_analysis.Store.Trace.History.{run-Keeps, reservations, reservations-le-one}
use traffic_analysis.Store.Trace.Linked.{IsLinkedStore, run-new_memory_store-IsLinkedStore}
use traffic_analysis.Store.Trace.Messages as Trace
use traffic_analysis.Store.Trace.Messages.{list_messages-add_message}
use traffic_analysis.Tests.{user_named, event_of, message_to}

abbrev fresh_store : MemoryStore
fresh_store = new_memory_store 1

abbrev history : List Op
history =
    creates_event 5 "evt" (event_of "e1")
    ∷ adds_message 6 "m1" (message_to "e1" "user")
    ∷ reserves 7 "fp"
    ∷ reserves 8 "fp"
    ∷ []

abbrev stored_event : Event
stored_event = record (event_of "e1") {
  id = 1;
  severity = "medium";
  source = "manual";
  event_status = "pending";
  current_round = 1;
  created_at = 5;
  updated_at = 5;
}

abbrev after_history : MemoryStore
after_history = run history fresh_store

event_there : get after_history.events "e1" ≡ some stored_event
unfolding run step create_event add_message reserve_fingerprint new_memory_store get put
    created_event default_text inc64 default_number
event_there = refl

list_messages-add_message_example :
    list_messages "e1" (add_message 9 "m2" (message_to "e1" "user") after_history).0 ≡ (
      if ("e1" == "e1")
        && is_visible
            (Trace.row 1 history (omega arith) 9 "m2" (message_to "e1" "user") event_there "e1")
      then list_messages "e1" after_history
        ++ Trace.row 1 history (omega arith) 9 "m2" (message_to "e1" "user") event_there "e1" ∷ []
      else list_messages "e1" after_history)
list_messages-add_message_example =
    list_messages-add_message 1 history (omega arith) 9 "m2" (message_to "e1" "user") event_there
      "e1"

run-new_memory_store-IsLinkedStore_example : IsLinkedStore (run history (new_memory_store 1))
run-new_memory_store-IsLinkedStore_example = run-new_memory_store-IsLinkedStore 1 history

run-Keeps_example : Keeps (run (updates_event 9 "e1" end ∷ []) after_history) "e1" stored_event
run-Keeps_example =
    run-Keeps (updates_event 9 "e1" end ∷ []) after_history "e1" stored_event event_there

reservations-le-one_example : reservations "fp" history fresh_store ≤ 1
reservations-le-one_example = reservations-le-one "fp" history fresh_store

-- Two are tried in that history and one succeeds.
reservations-history : reservations "fp" history fresh_store ≡ 1
unfolding run step create_event add_message reserve_fingerprint new_memory_store get put
    created_event default_text inc64 default_number
reservations-history = refl

abbrev pushed_record : PushedEvent
pushed_record = record {
  ly_event_id = "e1";
  idempotency_key = "k";
  deepsoc_event_id = "";
  status = "FAILED";
  attempts = 1;
  last_error = "";
  created_at = 0;
  updated_at = 0;
}

abbrev synced : MemoryStore
synced = save_pushed_event 4 pushed_record fresh_store

abbrev alice : User
alice = user_named "u1" "alice"

abbrev with_alice : MemoryStore
with_alice = (create_user 5 "usr" alice fresh_store).0

create_user-IsIndexed_example : IsIndexed with_alice
unfolding new_memory_store get put default_text
create_user-IsIndexed_example =
    create_user-IsIndexed 5 "usr" alice fresh_store refl (new_memory_store-IsIndexed 1) refl

create_user-takes_over_example :
    (get_user_by_username (create_user 5 "usr" (user_named "admin" "eve") fresh_store).0 "admin"
      ≡ some (UserLaws.stored 5 "usr" (user_named "admin" "eve") fresh_store))
    × ((UserLaws.stored 5 "usr" (user_named "admin" "eve") fresh_store).username ≢ "admin")
unfolding new_memory_store get put
create_user-takes_over_example =
    create_user-takes_over 5 "usr" (user_named "admin" "eve") fresh_store refl "admin" (λ e. cc)
      refl

abbrev no_time : String → Option ℕ
no_time text = none

abbrev new_nickname : Fields
new_nickname = field "nickname" (str "root") end

admin_there : get fresh_store.users_by_id "admin" ≡ some (admin 1)
unfolding new_memory_store get put
admin_there = refl

update_user_found-IsIndexed_example :
    IsIndexed (update_user no_time 5 "admin" new_nickname fresh_store).0
update_user_found-IsIndexed_example =
    update_user_found-IsIndexed no_time 5 "admin" new_nickname fresh_store admin_there
      (new_memory_store-IsIndexed 1)

abbrev a_task : Task
a_task = record {
  id = 0;
  task_id = "t1";
  event_id = "e1";
  task_name = "";
  task_type = "";
  task_description = "";
  task_status = "";
  task_priority = "";
  assigned_to = "";
  task_assignee = "";
  round_id = 1;
  created_at = 0;
  updated_at = 0;
}

-- A store with two tasks of one id under an event.
abbrev with_tasks : MemoryStore
with_tasks = (add_task 8 "" a_task (add_task 7 "" a_task after_history).0).0

abbrev done_patch : Fields
done_patch = field "task_status" (str "done") end

delete_user_found-IsIndexed_example : IsIndexed (delete_user "admin" fresh_store).0
delete_user_found-IsIndexed_example =
    delete_user_found-IsIndexed "admin" fresh_store admin_there (new_memory_store-IsIndexed 1)

update-Outcome_example :
    TaskOutcome 9 ("e0" ∷ "e1" ∷ []) "t1" done_patch with_tasks
    × ActionOutcome 9 ("e0" ∷ "e1" ∷ []) "t1" done_patch with_tasks
    × CommandOutcome 9 ("e0" ∷ "e1" ∷ []) "t1" done_patch with_tasks
update-Outcome_example = update-Outcome 9 ("e0" ∷ "e1" ∷ []) "t1" done_patch with_tasks
