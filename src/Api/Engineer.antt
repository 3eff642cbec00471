-- ===== src/Api/Engineer.antt =====
-- internal/httpapi/engineer_context.go and internal/httpapi/server.go: the chat of an engineer with
-- the model about an event.
use Prim.Native.String.{◌++◌ as append}
use traffic_analysis.Base.{
  ◌-◌, ltb, ◌||◌, String, Option, none, some, List, [], ◌∷◌, ◌==◌, if◌then◌else◌, length, drop,
}
use traffic_analysis.Base.Text.{trim_space}
use traffic_analysis.Base.Prefix.{trim_prefix}
use traffic_analysis.Base.Search.{decimal}
use traffic_analysis.Value.{Fields, str, obj, end, field, first_non_empty}
use traffic_analysis.Domain.{Ioc, Event, Message}
use traffic_analysis.Domain.Roles.{role_user, role_assistant}
use traffic_analysis.Store.{Result, ok, err}
use traffic_analysis.Store.Events.{get_event}
use traffic_analysis.Store.Messages.{list_messages}
use traffic_analysis.Store.Work.{
  list_tasks, list_actions, list_commands, list_executions, list_summaries,
}
use traffic_analysis.Service.Prompts.Texts.{lines}
use traffic_analysis.Api.{
  Request, Data, Reply, Site, Server, value, message, messages, tasks, actions, commands,
  executions, summaries, entries, no_entries, entry, store_of, reading_of, after, write_error,
  success_reply, on_decoded, text_at,
}
use traffic_analysis.Api.Events.{store_message}

unfoldable pub clean_engineer_question : String → String
clean_engineer_question question =
    trim_space (trim_prefix (trim_prefix (trim_space question) "@AI") "@ai")

-- The name of who wrote a message, for a message of the chat.
unfoldable pub speaker : Message → Option String
speaker m =
    if m.message_category == "engineer_chat"
    then (if m.sender_type == "user"
        then some "工程师"
        else if m.sender_type == "ai"
        then some "AI助手"
        else none)
    else none

-- A line of the history that is added to the lines.
abbrev pub add_line : Option String → String → List String → List String
add_line none content rest = rest
add_line (some role) content rest =
    if content == "" then rest else append role (append ": " content) ∷ rest

unfoldable pub history_lines : List Message → List String
history_lines [] = []
history_lines (m ∷ rest) = add_line (speaker m) (trim_space m.message_content) (history_lines rest)

-- lines[len(lines)-20:] where there are more than 20
unfoldable pub last_lines : List String → List String
last_lines list = if ltb 20 (length list) then drop (length list - 20) list else list

history_items : List String → String
history_items [] = ""
history_items (line ∷ rest) = append "- " (append line (append "\n" (history_items rest)))

abbrev no_history : List String → String
no_history [] = "暂无历史对话\n\n"
no_history (line ∷ rest) = append (history_items (line ∷ rest)) "\n"

unfoldable pub write_engineer_history : List Message → String
unfolding history_items
write_engineer_history list = append "## 最近工程师对话\n" (no_history (last_lines (history_lines list)))

observed : List Ioc → String
observed [] = ""
observed (c ∷ rest) = append "- type=" (
    append c.ioc_type (
      append " value="
        (append c.value (append " role=" (append c.role (append "\n" (observed rest)))))))

abbrev observables_section : List Ioc → String
observables_section [] = ""
observables_section (c ∷ rest) = append "## 可观察对象\n" (append (observed (c ∷ rest)) "\n")

answer_rules : String
unfolding lines
answer_rules = lines (
    "# 回答要求" ∷ "你是专业的安全运营AI助手。必须基于上面的事件完整信息回答，不要要求用户再次提供事件详情。"
    ∷ "如果用户要求“分析该事件”或“形成报告”，请直接生成报告，至少包含：" ∷ "1. 事件概览" ∷ "2. 关键证据" ∷ "3. 攻击源与受影响资产分析"
    ∷ "4. 已执行处置/自动驾驶进展" ∷ "5. 风险判断" ∷ "6. 后续处置建议" ∷ "7. 可交付给安全团队的结论"
    ∷ "如果现有信息不足，请明确列出缺口，但仍要基于已有信息完成初步分析。" ∷ [])

-- label: text and the end of the line
abbrev labelled : String → String → String
labelled label text = append label (append ": " (append text "\n"))

module _ (x : Site) where
  unfoldable pub write_json_section : String → Data → String
  write_json_section title d =
      let raw = x.marshal_indent d in
      append title
        (append "\n" (if raw == "null" || raw == "[]" then "暂无\n\n" else append raw "\n\n"))

  unfoldable pub event_header : Event → String
  event_header e = append "# 安全事件完整信息\n\n" (
      append (labelled "事件ID" e.event_id) (
        append (labelled "事件名称" (first_non_empty (e.event_name ∷ e.title ∷ "未命名事件" ∷ []))) (
          append (labelled "事件描述" (first_non_empty (e.message ∷ "无描述" ∷ []))) (
            append (labelled "事件上下文" (first_non_empty (e.context ∷ "无上下文" ∷ []))) (
              append (labelled "严重程度" (first_non_empty (e.severity ∷ "未知" ∷ []))) (
                append (labelled "事件来源" (first_non_empty (e.source ∷ "未知" ∷ []))) (
                  append (labelled "事件状态" (first_non_empty (e.event_status ∷ "未知" ∷ []))) (
                    append (labelled "当前轮次" (decimal e.current_round))
                      (append (labelled "创建时间" (x.date_time e.created_at)) "\n")))))))))

  unfoldable pub engineer_event_prompt : Event → String → Server → String
  unfolding observed answer_rules
  engineer_event_prompt e question s =
      let store = store_of s in
      let id = e.event_id in
      append (event_header e) (
        append (observables_section e.observables) (
          append (write_json_section "## 自动驾驶任务" (tasks (list_tasks id store))) (
            append (write_json_section "## 自动驾驶动作" (actions (list_actions id store))) (
              append (write_json_section "## 自动驾驶命令" (commands (list_commands id store))) (
                append (write_json_section "## 执行结果" (executions (list_executions id store))) (
                  append (write_json_section "## 事件总结" (summaries (list_summaries id store))) (
                    append (write_engineer_history (list_messages id store)) (
                      append "# 当前工程师问题\n" (
                        append (clean_engineer_question question)
                          (append "\n\n" answer_rules))))))))))

  unfoldable pub engineer_message : String → String → String → String → String → Message
  engineer_message event_id from message_type content sender = record {
    id = 0;
    message_id = "";
    event_id = event_id;
    user_id = "";
    user_nickname = "";
    message_from = from;
    message_type = message_type;
    message_content = content;
    round_id = 1;
    message_category = "engineer_chat";
    sender_type = sender;
    chat_session_id = "";
    created_at = 0;
  }

  -- The error of AddMessage is dropped, and the message is then empty.
  unfoldable pub message_or_empty : Result Message → Message
  message_or_empty (ok m) = m
  message_or_empty (err e) = record (engineer_message "" "" "" "" "") {
    round_id = 0;
    message_category = "";
  }

  unfoldable pub chat_reply : String → Server × Result Message → Server × Reply
  chat_reply reply (s, result) = (
    s,
    success_reply "" (
        entries (
          entry "reply" (value (str reply))
            (entry "message" (message (message_or_empty result)) no_entries))),
  )

  unfoldable pub answered : String → Server → Result String → Server × Reply
  answered event_id s (err e) = (s, write_error 502 e)
  answered event_id s (ok reply) =
      chat_reply reply (
        store_message x (engineer_message event_id role_assistant "assistant_response" reply "ai")
          s)

  unfoldable pub ask : String → String → Server → Event → Server × Reply
  ask event_id question s e =
      let asked =
        (store_message x (engineer_message event_id role_user "user_message" question "user")
          s).0 in
      answered event_id (after (store_of asked) 1 asked)
        (x.chat (reading_of asked) (engineer_event_prompt e question asked))

  unfoldable pub ask_about : String → String → Server → Option Event → Server × Reply
  ask_about event_id question s none = (s, write_error 404 "事件不存在")
  ask_about event_id question s (some e) = ask event_id question s e

  unfoldable pub engineer_chat_with : Server → Fields → Server × Reply
  engineer_chat_with s body =
      let event_id = text_at x body "event_id" in
      let question = text_at x body "message" in
      if event_id == "" || trim_space question == ""
      then (s, write_error 400 "event_id和message不能为空")
      else ask_about event_id question s (get_event (store_of s) event_id)

  unfoldable pub engineer_chat_send : Request → Server → Server × Reply
  engineer_chat_send r s = on_decoded s (x.decode_map r.body) (engineer_chat_with s)

  unfoldable pub engineer_new_session : Request → Server → Server × Reply
  engineer_new_session r s = (
    after (store_of s) 1 s,
    success_reply "" (value (obj (field "session_id" (str (x.random_token (reading_of s))) end))),
  )

unfoldable pub engineer_chat_history : Request → Server → Server × Reply
engineer_chat_history r s =
    (s, success_reply "" (messages (list_messages (r.query "event_id") (store_of s))))

unfoldable pub engineer_status : Request → Server → Server × Reply
engineer_status r s = (
  s,
  success_reply ""
      (value (obj (field "event_id" (str (r.query "event_id")) (field "status" (str "idle") end)))),
)
