-- ===== src/Autopilot/Flight.antt =====
-- internal/autopilot/autopilot.go: RunForEvent, which writes a message, a task, an execution and a
-- summary for an event, where the saved mode is on. Its logging is
-- left out, and so is the title that it takes, which goes into no row.
use Prim.Native.String.{◌++◌ as append}
use traffic_analysis.Base.{
  Bool, true, false, String, Option, none, some, List, [], ◌∷◌, ◌==◌, if◌then◌else◌,
}
use traffic_analysis.Base.Text.{trim_space}
use traffic_analysis.Value.{Value, Fields, str, number, obj, end, field}
use traffic_analysis.Store.{Result, ok, err}
use traffic_analysis.Hub.{Hub}
use traffic_analysis.Realtime.{broadcast_message, broadcast_execution_update, broadcast_status}
use traffic_analysis.Autopilot.{Pilot, Flown, stable_suffix, execute, with_db, saved_driving_mode}
use traffic_analysis.Autopilot.Columns.{insert_compat}

abbrev pub processing_text : String → String
processing_text column =
    append "UPDATE events SET " (append column "='processing', updated_at=now() WHERE event_id=$1")

abbrev pub summary_sql : String
summary_sql =
    "\nINSERT INTO summaries (\n\tevent_id,\n\tround_id,\n\tevent_summary,\n\tcreated_at,\n\tupdated_at\n) VALUES (\n\t$1,\n\t1,\n\t$2,\n\t$3,\n\t$3\n)"

abbrev summary_text : String
summary_text = "自动驾驶初步总结：事件已进入自动分析流程，已生成任务和执行记录。建议继续拉取证据、关联流量并生成最终报告。"

-- Fields whose values are texts, and fields after them.
texts : List (String × String) → Fields → Fields
texts [] rest = rest
texts ((k, t) ∷ l) rest = field k (str t) (texts l rest)

published : (Option Hub → Option Hub) → Flown → Flown
published change w = record w { publisher = change w.publisher }

-- What is broadcast where the insert went well.
announced : (Option Hub → Option Hub) → Flown × Option String → Flown
unfolding published
announced change (w, none) = published change w
announced change (w, some e) = w

module _ (p : Pilot) (event_id : String) where
  second_update : Flown × Option String → Flown
  second_update (w, none) = w
  second_update (w, some e) =
      (execute p (record { text = processing_text "status"; args = str event_id ∷ [] }) w).0

  unfoldable pub update_event_processing : Flown → Flown
  unfolding second_update
  update_event_processing w =
      second_update
        (execute p (record { text = processing_text "event_status"; args = str event_id ∷ [] }) w)

  message_id : String
  message_id = append "auto-msg-" (stable_suffix p event_id)

  task_id : String
  task_id = append "auto-task-" (stable_suffix p event_id)

  exec_id : String
  exec_id = append "auto-exec-" (stable_suffix p event_id)

  unfoldable pub autopilot_message : Value → Fields
  unfolding texts message_id
  autopilot_message now =
      let content = p.json_text (
        texts (("response_text", "自动驾驶已启动，正在生成任务、执行和总结。") ∷ ("type", "autopilot_started") ∷ [])
          end) in
      texts
        (("message_id", message_id)
          ∷ ("event_id", event_id)
          ∷ ("message_from", "autopilot")
          ∷ ("message_type", "system_notification")
          ∷ ("message_content", content)
          ∷ ("content", content)
          ∷ [])
        (field "round_id" (number "1") (field "created_at" now (field "updated_at" now end)))

  unfoldable pub autopilot_task : Value → Fields
  unfolding texts task_id
  autopilot_task now =
      texts
        (("task_id", task_id)
          ∷ ("event_id", event_id)
          ∷ ("task_name", "自动驾驶：威胁情报与资产分析")
          ∷ ("title", "自动驾驶：威胁情报与资产分析")
          ∷ ("name", "自动驾驶：威胁情报与资产分析")
          ∷ ("task_type", "autopilot_analysis")
          ∷ ("type", "autopilot_analysis")
          ∷ ("task_content", "自动查询攻击源威胁情报、目标资产信息并生成初步分析。")
          ∷ ("description", "自动查询攻击源威胁情报、目标资产信息并生成初步分析。")
          ∷ ("content", "自动查询攻击源威胁情报、目标资产信息并生成初步分析。")
          ∷ ("assignee", "autopilot")
          ∷ ("assigned_to", "autopilot")
          ∷ ("message_from", "autopilot")
          ∷ ("status", "completed")
          ∷ ("task_status", "completed")
          ∷ ("metadata", p.json_text (texts (("source", "driving-mode") ∷ []) end))
          ∷ [])
        (field "round_id" (number "1")
          (field "created_at" now (field "updated_at" now (field "completed_at" now end))))

  unfoldable pub autopilot_execution : Value → Fields
  unfolding texts task_id exec_id
  autopilot_execution now =
      let output =
        p.json_text (texts (("response_text", "自动驾驶已完成初步分析。") ∷ ("event_id", event_id) ∷ []) end) in
      texts
        (("execution_id", exec_id)
          ∷ ("event_id", event_id)
          ∷ ("task_id", task_id)
          ∷ ("executor", "autopilot")
          ∷ ("executor_role", "autopilot")
          ∷ ("execution_type", "autopilot_analysis")
          ∷ ("type", "autopilot_analysis")
          ∷ ("status", "completed")
          ∷ ("execution_status", "completed")
          ∷ ("result", output)
          ∷ ("output", output)
          ∷ [])
        (field "round_id" (number "1")
          (field "created_at" now (field "updated_at" now (field "completed_at" now end))))

  execution_notice : Value
  unfolding texts exec_id
  execution_notice = obj (
      texts
        (("event_id", event_id)
          ∷ ("execution_id", exec_id)
          ∷ ("status", "completed")
          ∷ ("source", "autopilot")
          ∷ [])
        end)

  status_notice : Value
  unfolding texts
  status_notice = obj (
      texts
        (("event_id", event_id)
          ∷ ("status", "autopilot_completed")
          ∷ ("message", "自动驾驶已生成任务、执行和总结。")
          ∷ [])
        end)

  -- The rows and the broadcasts, once the database is open.
  unfoldable pub fly : Flown → Flown × Option String
  unfolding announced published execution_notice status_notice
  fly w =
      let now = p.clock w.calls 0 in
      let message = autopilot_message now in
      let w1 = update_event_processing w in
      let w2 =
        announced (broadcast_message event_id (obj message))
          (insert_compat p "messages" message w1) in
      let w3 = (insert_compat p "tasks" (autopilot_task now) w2).0 in
      let w4 =
        announced (broadcast_execution_update event_id execution_notice)
          (insert_compat p "executions" (autopilot_execution now) w3) in
      let (w5, e) =
        execute p (record { text = summary_sql; args = str event_id ∷ str summary_text ∷ now ∷ [] })
          w4 in
      (published (broadcast_status event_id status_notice) w5, none)

  where_enabled : Flown × Result Bool → Flown × Option String
  where_enabled (w, err e) = (w, some e)
  where_enabled (w, ok false) = (w, none)
  where_enabled (w, ok true) = with_db p some fly w

  unfoldable pub run_for_event : Flown → Flown × Option String
  unfolding where_enabled
  run_for_event w =
      if trim_space event_id == "" then (w, none) else where_enabled (saved_driving_mode p w)
