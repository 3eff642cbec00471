-- ===== src/Api/Events.antt =====
-- internal/httpapi/server.go: the handlers of /api/event and /api/report.
use traffic_analysis.Base.{◌+◌, String, none, some, [], ◌∷◌, length}
use traffic_analysis.Dict.{keys}
use traffic_analysis.Value.{Fields, str, obj, end, field, first_non_empty}
use traffic_analysis.Domain.{Event, Message}
use traffic_analysis.Domain.Roles.{normalize_message_from, sender_type}
use traffic_analysis.Store.{Result, ok, err}
use traffic_analysis.Store.Events.{get_event, list_events}
use traffic_analysis.Store.Messages.{add_message, list_messages}
use traffic_analysis.Store.Work.{
  list_tasks, list_actions, list_commands, list_executions, list_summaries,
}
use traffic_analysis.Service.{World}
use traffic_analysis.Service.Create.{create_event_from_request}
use traffic_analysis.Api.{
  Request, Reply, Site, Server, value, count, instant, event, events, message, messages, tasks,
  actions, commands, executions, summaries, entries, no_entries, entry, store_of, reading_of, after,
  write_error, success_reply, on_decoded, text_at,
}

-- The server with the world that a service left.
unfoldable pub in_world : World → Server → Server
in_world w s = record s { desk = record s.desk { stage = record s.desk.stage { world = w } } }

module _ (x : Site) where
  unfoldable pub created_event_reply : Server → World × Result Event → Server × Reply
  created_event_reply s (w, ok e) = (in_world w s, success_reply "事件创建成功" (event e))
  created_event_reply s (w, err e) = (in_world w s, write_error 400 e)

  unfoldable pub handle_create_event : Request → Server → Server × Reply
  handle_create_event r s =
      on_decoded s (x.decode_map r.body) (λ body.
        created_event_reply s (create_event_from_request x.outside body s.desk.stage.world))

  unfoldable pub handle_list_events : Request → Server → Server × Reply
  handle_list_events r s = (
    s,
    success_reply "" (
        events (list_events (x.crew.visit (reading_of s) (keys (store_of s).events)) (store_of s))),
  )

  unfoldable pub handle_get_event : Request → Server → Server × Reply
  handle_get_event r s = (
    s,
    elim (get_event (store_of s) (r.path_value "event_id")) [
      | none ↦ write_error 404 "事件不存在"
      | some e ↦ success_reply "" (event e)
    ],
  )

  unfoldable pub get_stats : Request → Server → Server × Reply
  get_stats r s =
      let id = r.path_value "event_id" in
      let store = store_of s in
      (
        after store 1 s,
        success_reply "" (
            entries (
              entry "event_id" (value (str id)) (
                entry "messages" (count (length (list_messages id store))) (
                  entry "tasks" (count (length (list_tasks id store))) (
                    entry "actions" (count (length (list_actions id store))) (
                      entry "commands" (count (length (list_commands id store))) (
                        entry "executions" (count (length (list_executions id store))) (
                          entry "summaries" (count (length (list_summaries id store))) (
                            entry "generated_at" (instant (x.outside.now (reading_of s)))
                              no_entries))))))))),
      )

  -- The message that is built from a body.
  unfoldable pub user_message : String → Fields → Message
  user_message event_id body =
      let from =
        normalize_message_from (
          first_non_empty
            (text_at x body "message_from" ∷ text_at x body "sender" ∷ "user" ∷ [])) in
      record {
        id = 0;
        message_id = "";
        event_id = event_id;
        user_id = text_at x body "user_id";
        user_nickname = text_at x body "user_nickname";
        message_from = from;
        message_type = first_non_empty (text_at x body "message_type" ∷ "user_message" ∷ []);
        message_content =
            first_non_empty (text_at x body "message" ∷ text_at x body "message_content" ∷ []);
        round_id = 1;
        message_category = "agent";
        sender_type = sender_type from;
        chat_session_id = "";
        created_at = 0;
      }

  -- Store.AddMessage on the server's store.
  unfoldable pub store_message : Message → Server → Server × Result Message
  store_message m s =
      let n = reading_of s in
      let (store, result) =
        add_message (x.outside.now n) (x.outside.new_id n "msg") m (store_of s) in
      (after store 1 s, result)

  unfoldable pub sent_reply : Server × Result Message → Server × Reply
  sent_reply (s, ok m) = (s, success_reply "" (message m))
  sent_reply (s, err e) = (s, write_error 404 e)

  unfoldable pub send_event_message : Request → Server → Server × Reply
  send_event_message r s =
      on_decoded s (x.decode_map r.body)
        (λ body. sent_reply (store_message (user_message (r.path_value "event_id") body) s))

  unfoldable pub report_global : Request → Server → Server × Reply
  report_global r s =
      let list =
        list_events (x.crew.visit (reading_of s) (keys (store_of s).events)) (store_of s) in
      (
        after (store_of s) 2 s,
        success_reply "" (
            entries (
              entry "event_count" (count (length list))
                (entry "generated_at" (instant (x.outside.now (reading_of s + 1))) no_entries))),
      )

unfoldable pub get_messages : Request → Server → Server × Reply
get_messages r s =
    (s, success_reply "" (messages (list_messages (r.path_value "event_id") (store_of s))))

unfoldable pub get_tasks : Request → Server → Server × Reply
get_tasks r s = (s, success_reply "" (tasks (list_tasks (r.path_value "event_id") (store_of s))))

unfoldable pub get_actions : Request → Server → Server × Reply
get_actions r s =
    (s, success_reply "" (actions (list_actions (r.path_value "event_id") (store_of s))))

unfoldable pub get_commands : Request → Server → Server × Reply
get_commands r s =
    (s, success_reply "" (commands (list_commands (r.path_value "event_id") (store_of s))))

unfoldable pub get_executions : Request → Server → Server × Reply
get_executions r s =
    (s, success_reply "" (executions (list_executions (r.path_value "event_id") (store_of s))))

unfoldable pub get_summaries : Request → Server → Server × Reply
get_summaries r s =
    (s, success_reply "" (summaries (list_summaries (r.path_value "event_id") (store_of s))))

-- Nothing of the execution is changed.
unfoldable pub complete_execution : Request → Server → Server × Reply
complete_execution r s = (
  s,
  success_reply "execution completion accepted"
      (value (obj (field "execution_id" (str (r.path_value "execution_id")) end))),
)

unfoldable pub get_hierarchy : Request → Server → Server × Reply
get_hierarchy r s =
    let id = r.path_value "event_id" in
    let store = store_of s in
    (
      s,
      success_reply "" (
          entries (
            entry "event_id" (value (str id)) (
              entry "messages" (messages (list_messages id store)) (
                entry "tasks" (tasks (list_tasks id store)) (
                  entry "actions" (actions (list_actions id store)) (
                    entry "commands" (commands (list_commands id store)) (
                      entry "executions" (executions (list_executions id store))
                        (entry "summaries" (summaries (list_summaries id store)) no_entries)))))))),
    )
