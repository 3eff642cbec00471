-- ===== src/Api/Routes.antt =====
-- internal/httpapi/server.go: the routes of the server, each with its handler and its hooks. Which
-- route a request has is decided by Go's ServeMux. The routes of the socket hub and of lyserver, and
-- the proxy, are those of other components.
use traffic_analysis.Api.{Site}
use traffic_analysis.Api.Accounts.{
  login, me, check_auth, init_admin, handle_create_user, change_password, handle_list_users,
  handle_get_user, handle_update_user, handle_delete_user, update_user_password,
}
use traffic_analysis.Api.Events.{
  handle_create_event, handle_list_events, handle_get_event, get_messages, get_tasks, get_actions,
  get_commands, get_stats, get_summaries, send_event_message, get_executions, complete_execution,
  get_hierarchy, report_global,
}
use traffic_analysis.Api.Internal.{
  health, llm_health, version, internal_event_push, internal_sync_run, internal_dedup_reset,
  internal_get_flow, internal_related_flows, internal_asset, internal_prepare_pcap,
  internal_get_pcap, ok_handler,
}
use traffic_analysis.Api.Engineer.{
  engineer_chat_send, engineer_chat_history, engineer_new_session, engineer_status,
}
use traffic_analysis.Api.Modes.{
  driving_mode_get_compat, driving_mode_put, prompt_list, prompt_get, prompt_background_get,
}
use traffic_analysis.Api.Hooks.{
  Handler, with_new_message_broadcast, with_execution_update_broadcast,
  with_driving_mode_automation, with_cors,
}

pub data Route : Type 0 where
  get_health : Route
  get_llm_health : Route
  get_version : Route
  post_event_push : Route
  post_sync_run : Route
  post_dedup_reset : Route
  get_flow : Route
  get_related_flows : Route
  get_asset : Route
  post_prepare_pcap : Route
  get_pcap : Route
  post_login : Route
  post_logout : Route
  get_me : Route
  get_check_auth : Route
  post_init_admin : Route
  post_create_user : Route
  post_change_password : Route
  post_create_event : Route
  get_event_list : Route
  get_one_event : Route
  get_event_messages : Route
  get_event_tasks : Route
  get_event_actions : Route
  get_event_commands : Route
  get_event_stats : Route
  get_event_summaries : Route
  post_send_message : Route
  get_event_executions : Route
  post_complete_execution : Route
  get_event_hierarchy : Route
  get_user_list : Route
  get_one_user : Route
  put_user : Route
  delete_one_user : Route
  put_user_password : Route
  get_prompt_list : Route
  get_prompt : Route
  put_prompt : Route
  get_background : Route
  put_background : Route
  get_mode : Route
  put_mode : Route
  post_chat : Route
  get_chat_history : Route
  post_new_session : Route
  get_chat_status : Route
  post_report : Route

module _ (x : Site) where
  unfoldable pub handler_of : Route → Handler
  handler_of get_health = health x
  handler_of get_llm_health = llm_health x
  handler_of get_version = version
  handler_of post_event_push = with_driving_mode_automation x (internal_event_push x)
  handler_of post_sync_run = internal_sync_run
  handler_of post_dedup_reset = internal_dedup_reset
  handler_of get_flow = internal_get_flow
  handler_of get_related_flows = internal_related_flows
  handler_of get_asset = internal_asset
  handler_of post_prepare_pcap = internal_prepare_pcap
  handler_of get_pcap = internal_get_pcap
  handler_of post_login = login x
  handler_of post_logout = ok_handler
  handler_of get_me = me x
  handler_of get_check_auth = check_auth x
  handler_of post_init_admin = init_admin x
  handler_of post_create_user = handle_create_user x
  handler_of post_change_password = change_password x
  handler_of post_create_event = with_driving_mode_automation x (handle_create_event x)
  handler_of get_event_list = handle_list_events x
  handler_of get_one_event = handle_get_event x
  handler_of get_event_messages = get_messages
  handler_of get_event_tasks = get_tasks
  handler_of get_event_actions = get_actions
  handler_of get_event_commands = get_commands
  handler_of get_event_stats = get_stats x
  handler_of get_event_summaries = get_summaries
  handler_of post_send_message = with_new_message_broadcast x (send_event_message x)
  handler_of get_event_executions = get_executions
  handler_of post_complete_execution = with_execution_update_broadcast x complete_execution
  handler_of get_event_hierarchy = get_hierarchy
  handler_of get_user_list = handle_list_users x
  handler_of get_one_user = handle_get_user x
  handler_of put_user = handle_update_user x
  handler_of delete_one_user = handle_delete_user x
  handler_of put_user_password = update_user_password x
  handler_of get_prompt_list = prompt_list
  handler_of get_prompt = prompt_get
  handler_of put_prompt = ok_handler
  handler_of get_background = prompt_background_get
  handler_of put_background = ok_handler
  handler_of get_mode = driving_mode_get_compat x
  handler_of put_mode = driving_mode_put x
  handler_of post_chat = with_new_message_broadcast x (engineer_chat_send x)
  handler_of get_chat_history = engineer_chat_history
  handler_of post_new_session = engineer_new_session x
  handler_of get_chat_status = engineer_status
  handler_of post_report = report_global x

  -- The handler of the whole server.
  unfoldable pub serve : Route → Handler
  serve route = with_cors (handler_of route)
