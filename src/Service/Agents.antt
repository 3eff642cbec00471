-- ===== src/Service/Agents.antt =====
-- internal/service/agents.go: what the agents write to the event's messages, and the state that
-- the workflow runs on.
pub mod Plans
pub mod Control
pub mod Steps
pub mod Workflow
pub mod Calls
pub mod History
pub mod Restore
pub mod Done
pub mod Finish
pub mod Again
use Prim.Native.String.{◌++◌ as append}
use traffic_analysis.Base.{ℕ, ◌+◌, String, Option, List, [], ◌∷◌, length}
use traffic_analysis.Base.Search.{decimal}
use traffic_analysis.Value.{Value, first_non_empty}
use traffic_analysis.Domain.{Event, Message, Task, Action, Command, Execution, Summary}
use traffic_analysis.Domain.Roles.{
  role_captain, role_manager, role_operator, role_executor, role_expert, normalize_message_from,
  sender_type,
}
use traffic_analysis.Store.{MemoryStore, Result, ok, err}
use traffic_analysis.Store.Messages.{add_message}
use traffic_analysis.Hub.{Hub}
use traffic_analysis.Realtime.{broadcast_message}
use traffic_analysis.Service.{Outside, World, publish, agent_message}

-- The part of a response that is not the same for all agents.
pub data Content : Type 0 where
  task_content : String → String → List Task → Content
  action_content : List Action → Content
  command_content : List Command → Content
  execution_content : List Execution → Content
  summary_content : List String → List String → Content

-- The maps that the agents write.
pub record Response : Type 0 where
  pub type_name : String
  pub from : String
  pub to : List String
  pub event_id : String
  pub round_id : ℕ
  pub response_type : String
  pub content : Content

unfoldable pub captain_response : Event → ℕ → List Task → Response
captain_response event round_id tasks = record {
  type_name = "llm_response";
  from = role_captain;
  to = role_manager ∷ [];
  event_id = event.event_id;
  round_id = round_id;
  response_type = "TASK";
  content =
      task_content (first_non_empty (event.event_name ∷ event.title ∷ event.event_id ∷ []))
        (append "当前事件来源为" (
          append (first_non_empty (event.source ∷ "未知来源" ∷ [])) (
            append "，严重级别为" (
              append (first_non_empty (event.severity ∷ "medium" ∷ []))
                "。作为SOC指挥官，本轮先围绕攻击源信誉、地理位置和受害资产归属进行事实查询，不直接下发封禁等写入动作，避免在证据不足时扩大影响。待_manager拆解动作并由_executor返回证据后，再根据威胁情报、资产重要性和命中日志决定是否进入处置阶段。"))))
        tasks;
}

unfoldable pub manager_response : String → ℕ → List Action → Response
manager_response event_id round_id actions = record {
  type_name = "llm_response";
  from = role_manager;
  to = role_operator ∷ [];
  event_id = event_id;
  round_id = round_id;
  response_type = "ACTION";
  content = action_content actions;
}

unfoldable pub operator_response : String → ℕ → List Command → Response
operator_response event_id round_id commands = record {
  type_name = "llm_response";
  from = role_operator;
  to = role_executor ∷ [];
  event_id = event_id;
  round_id = round_id;
  response_type = "COMMAND";
  content = command_content commands;
}

unfoldable pub executor_response : String → ℕ → List Execution → Response
executor_response event_id round_id executions = record {
  type_name = "execution_result";
  from = role_executor;
  to = role_expert ∷ [];
  event_id = event_id;
  round_id = round_id;
  response_type = "RESULT";
  content = execution_content executions;
}

unfoldable pub expert_response : Event → ℕ → Summary → List Execution → Response
expert_response event round_id sm executions = record {
  type_name = "llm_response";
  from = role_expert;
  to = role_captain ∷ [];
  event_id = event.event_id;
  round_id = round_id;
  response_type = "SUMMARY";
  content =
      summary_content
        (sm.event_summary
          ∷ append "本轮共完成 " (append (decimal (length executions)) " 个执行命令，均已返回结构化结果。")
          ∷ [])
        ("建议SOC指挥官结合威胁情报、攻击历史和资产重要性决定是否进入封禁或隔离阶段。" ∷ "如果目标资产属于生产环境或高 CIA 业务，应补充最近60分钟登录日志和流量会话核查。"
          ∷ []);
}

-- What the workflow takes from outside besides `Outside`.
pub record Crew : Type 0 where
  -- StandardContent of a response, at the time of the reading
  pub response_content : ℕ → Response → String
  -- a message as the clients get it
  pub encode : Message → Value
  -- the order in which a map with these keys is visited, by the reading
  pub visit : ℕ → List String → List String

-- The world, and the publisher of internal/realtime.
pub record Stage : Type 0 where
  pub world : World
  pub publisher : Option Hub

module _ (o : Outside) (c : Crew) where
  abbrev pub on_store : (ℕ → MemoryStore → MemoryStore) → Stage → Stage
  on_store change st =
      let n = st.world.readings in
      record st { world = record st.world { store = change n st.world.store; readings = n + 1 } }

  pub told : String → String → String → Result Message → Stage → Stage
  told event_id from message_type (err e) st = st
  told event_id from message_type (ok m) st = record {
    world =
        publish o
          (append "notifications.frontend."
            (append event_id (append "." (append from (append "." message_type)))))
          event_id from (agent_message m) st.world;
    publisher = broadcast_message event_id (c.encode m) st.publisher;
  }

  -- The error of addAgentMessage is dropped by every caller.
  unfoldable pub add_agent_message : String → String → String → ℕ → Response → Stage → Stage
  unfolding told
  add_agent_message event_id role message_type round_id data_value st =
      let n = st.world.readings in
      let from = normalize_message_from role in
      let message : Message = record {
        id = 0;
        message_id = "";
        event_id = event_id;
        user_id = "";
        user_nickname = "";
        message_from = from;
        message_type = message_type;
        message_content = c.response_content n data_value;
        round_id = round_id;
        message_category = "agent";
        sender_type = sender_type from;
        chat_session_id = "";
        created_at = 0;
      } in
      let (s, result) = add_message (o.now (n + 1)) (o.new_id n "msg") message st.world.store in
      told event_id from message_type result
        (record st { world = record st.world { store = s; readings = n + 2 } })
