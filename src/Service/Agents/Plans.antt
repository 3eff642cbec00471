-- ===== src/Service/Agents/Plans.antt =====
-- internal/service/agents.go: what the agents decide: tasks from an event, an action for a task, a
-- command for an action, and the result of a command.
use Prim.Native.String.{◌++◌ as append}
use traffic_analysis.Base.{
  ℕ, Bool, not, ◌&&◌, ◌||◌, String, List, [], ◌∷◌, ◌++◌, ◌==◌, if◌then◌else◌, ◌=ℕ◌,
}
use traffic_analysis.Base.Text.{trim_space, lower_is}
use traffic_analysis.Base.Search.{contains, replace_first, equal_fold, decimal, ip_from_text}
use traffic_analysis.Value.{
  Value, Fields, Items, str, number, obj, arr, done, item, end, field, first_non_empty,
}
use traffic_analysis.Domain.{Event, Ioc, Task, Action, Command}

pub record TaskPlan : Type 0 where
  pub name : String
  pub type_name : String
  pub assignee : String
  pub description : String

pub record CommandSpec : Type 0 where
  pub name : String
  pub type_name : String
  pub entity : Value
  pub params : Value

is_ip_item : Ioc → Bool
is_ip_item i = equal_fold i.ioc_type "ip" && not (i.value == "")

-- The inner loop of firstObservable.
observable_with : String → List Ioc → String
unfolding is_ip_item
observable_with role [] = ""
observable_with role (i ∷ items) =
    let rest = observable_with role items in
    if equal_fold i.role role && is_ip_item i then i.value else rest

unfoldable pub first_observable : Event → List String → String
unfolding observable_with
first_observable event [] = ""
first_observable event (role ∷ roles) =
    let found = observable_with role event.observables in
    let rest = first_observable event roles in if found == "" then rest else found

ip_items : List Ioc → String
unfolding is_ip_item
ip_items [] = ""
ip_items (i ∷ items) = let rest = ip_items items in if is_ip_item i then i.value else rest

unfoldable pub first_ip : Event → String
unfolding ip_items
first_ip event = first_non_empty (
    ip_items event.observables
    ∷ ip_from_text event.message
    ∷ ip_from_text event.context
    ∷ ip_from_text event.title
    ∷ ip_from_text event.event_name
    ∷ [])

query_plan : String → String → TaskPlan
query_plan name description = record {
  name = name;
  type_name = "query";
  assignee = "_analyst";
  description = description;
}

source_plans : String → List TaskPlan
unfolding query_plan
source_plans src =
    if src == ""
    then []
    else query_plan (append "请查询IP地址" (append src "的威胁情报")) "查询标签、历史攻击记录、地理位置、情报来源和置信度，不做处置判断。"
      ∷ query_plan (append "请查询IP地址" (append src "的地理位置")) "查询攻击源归属地和网络运营商，作为后续研判依据。"
      ∷ []

target_plans : String → String → List TaskPlan
unfolding query_plan
target_plans src dst =
    if dst == "" || dst == src
    then []
    else query_plan (append "请查询IP地址" (append dst "的资产信息")) "查询资产类型、所属部门、负责人、业务线和生产/测试环境属性。" ∷ []

-- if len(plans) == 0
unfoldable pub or_default : Event → List TaskPlan → List TaskPlan
unfolding query_plan
or_default event [] =
    query_plan "请根据事件上下文查询相关攻击源和受影响资产信息"
      (first_non_empty (event.message ∷ event.context ∷ "根据事件上下文完成威胁研判、证据收集和处置建议。" ∷ []))
    ∷ []
or_default event (plan ∷ plans) = plan ∷ plans

unfoldable pub build_task_plans : Event → List TaskPlan
unfolding source_plans target_plans or_default
build_task_plans event =
    let named = first_observable event ("source" ∷ []) in
    let src = if named == "" then first_ip event else named in
    let dst = first_observable event ("destination" ∷ "target" ∷ "victim" ∷ "dst" ∷ []) in
    or_default event (source_plans src ++ target_plans src dst)

unfoldable pub action_name_for_task : Task → String
action_name_for_task task =
    let name = task.task_name in
    if contains name "威胁情报"
    then replace_first name "请查询" "使用剧本【通用IP地址威胁情报信息查询】查询"
    else if contains name "地理位置"
    then replace_first name "请查询" "使用剧本【通用IP地址位置查询】查询"
    else if contains name "资产信息"
    then replace_first name "请查询" "使用剧本【根据IP地址查询资产信息】查询"
    else append "人工分析：" name

playbook : String → String → String → Fields → CommandSpec
playbook name id playbook_name params = record {
  name = name;
  type_name = "playbook";
  entity = obj (field "playbook_id" (number id) (field "playbook_name" (str playbook_name) end));
  params = obj params;
}

unfoldable pub command_spec_for_action : Event → Action → CommandSpec
unfolding playbook
command_spec_for_action event action =
    let name = action.action_name in
    let named = ip_from_text name in
    let ip = if named == "" then first_ip event else named in
    if contains name "威胁情报"
    then playbook "通用IP地址威胁情报信息查询" "12316887511154270" "General_IP_Threat_Intelligence_Query"
        (field "src" (str ip) end)
    else if contains name "地理位置"
    then playbook "通用IP地址位置查询" "12321406690537761" "General_IP_Location_Query"
        (field "src" (str ip) end)
    else if contains name "资产信息"
    then playbook "根据IP地址查询资产信息" "12321435630187042" "query_asset_info_by_ip"
        (field "dst" (str ip) end)
    else record {
      name = name;
      type_name = "manual";
      entity = obj (field "user_id" (str "zhangsan") (field "user_name" (str "张三") end));
      params = obj (field "event_id" (str event.event_id) (field "requirement" (str name) end));
    }

unfoldable pub severity_priority : String → String
severity_priority severity =
    let s = trim_space severity in
    if lower_is s "critical" || lower_is s "high" || lower_is s "严重" || lower_is s "高"
    then "high"
    else if lower_is s "low" || lower_is s "低"
    then "low"
    else "medium"

texts : List String → Items
texts [] = done
texts (t ∷ ts) = item (str t) (texts ts)

result_fields : String → String → Fields → Fields
result_fields verdict summary rest =
    field "verdict" (str verdict) (field "summary" (str summary) rest)

outcome_of : String → Fields
unfolding result_fields texts
outcome_of name =
    if name == "通用IP地址威胁情报信息查询"
    then result_fields "suspicious" "命中自动化威胁情报查询流程，需结合地理位置、历史攻击和受害资产重要性复核。"
        (field "indicators" (arr (texts ("threat_intel_lookup" ∷ "source_reputation" ∷ []))) end)
    else if name == "通用IP地址位置查询"
    then result_fields "informational" "已完成攻击源地理位置查询，结果用于支撑后续拦截范围和误封风险评估。"
        (field "indicators" (arr (texts ("geo_location" ∷ []))) end)
    else if name == "根据IP地址查询资产信息"
    then result_fields "asset_context_required" "已查询受影响资产上下文，需关注资产负责人、业务线和生产环境属性。"
        (field "indicators" (arr (texts ("asset_owner" ∷ "business_context" ∷ []))) end)
    else result_fields "manual_required" "该命令需要人工复核或补充外部系统结果。" end

unfoldable pub execution_result : Event → Command → Fields
unfolding outcome_of
execution_result event command =
    field "event_id" (str event.event_id)
      (field "command_id" (str command.command_id) (outcome_of command.command_name))

-- firstNonZero(n, d)
unfoldable pub first_non_zero : ℕ → ℕ → ℕ
first_non_zero n d = if n =ℕ 0 then d else n

unfoldable pub event_summary : Event → String
event_summary event = append "事件 " (
    append (first_non_empty (event.event_name ∷ event.event_id ∷ [])) (
      append " 已完成第 " (
        append (decimal (first_non_zero event.current_round 1))
          " 轮自动驾驶分析：已根据原 DeepSOC 提示词流程完成 TASK、ACTION、COMMAND 和执行结果汇总，当前结论以事实查询为主，暂不直接执行阻断。")))
