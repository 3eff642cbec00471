-- ===== src/Api/Served/Reads.antt =====
-- internal/httpapi/server.go: the routes that leave the store and the tokens as they are.
use traffic_analysis.Base.{Bool, true, false, not, ◌&&◌, ◌==◌, ◌≡◌, refl, if-elim}
use traffic_analysis.Store.{Result, ok, err}
use traffic_analysis.Driving.{Desk, get_driving_mode}
use traffic_analysis.Driving.Calls.{stage-get_driving_mode}
use traffic_analysis.Api.{Request, Reply, Site, Server, store_of, after}
use traffic_analysis.Api.Events.{
  get_stats, report_global, handle_list_events, handle_get_event, get_messages, get_tasks,
  get_actions, get_commands, get_summaries, get_executions, get_hierarchy, complete_execution,
}
use traffic_analysis.Api.Internal.{
  llm_health, health, version, internal_sync_run, internal_dedup_reset, internal_get_flow,
  internal_related_flows, internal_asset, internal_prepare_pcap, internal_get_pcap, ok_handler,
}
use traffic_analysis.Api.Accounts.{me, check_auth, handle_list_users, handle_get_user}
use traffic_analysis.Api.Engineer.{engineer_new_session, engineer_chat_history, engineer_status}
use traffic_analysis.Api.Modes.{
  prompt_list, prompt_get, prompt_background_get, mode_reply, driving_mode_get_compat,
}
use traffic_analysis.Api.Hooks.{
  after_execution, with_execution_update_broadcast, with_cors, on_publisher, is_success,
}
use traffic_analysis.Api.Routes.{
  Route, handler_of, serve, post_event_push, post_login, post_init_admin, post_create_user,
  post_change_password, post_create_event, post_send_message, post_complete_execution, put_user,
  delete_one_user, put_user_password, get_mode, put_mode, post_chat,
}

-- The routes that may write the store or the tokens.
unfoldable pub writes : Route → Bool
writes post_event_push = true
writes post_login = true
writes post_init_admin = true
writes post_create_user = true
writes post_change_password = true
writes post_create_event = true
writes post_send_message = true
writes put_user = true
writes delete_one_user = true
writes put_user_password = true
writes put_mode = true
writes post_chat = true
writes _ = false

module _ (x : Site) where
  abbrev pub SameData : Server → Server × Reply → Type 0
  SameData s p = (store_of p.0 ≡ store_of s) × (p.0.tokens ≡ s.tokens)

  driving_mode_get_compat-reads :
      (r : Request) (s : Server) → SameData s (driving_mode_get_compat x r s)
  unfolding driving_mode_get_compat mode_reply
  driving_mode_get_compat-reads r s =
      read (get_driving_mode x.backend s.desk) (stage-get_driving_mode x.backend s.desk)
    where
      read : (p : Desk × Result Bool) → p.0.stage ≡ s.desk.stage → SameData s (mode_reply s p)
      read (desk, ok b) same = (rw same refl, refl)
      read (desk, err e) same = (rw same refl, refl)

  pub handler_of-reads :
      (route : Route) (r : Request) (s : Server)
      → writes route ≡ false
      → SameData s (handler_of x route r s)
  unfolding handler_of writes with_execution_update_broadcast after_execution on_publisher get_stats
      report_global llm_health engineer_new_session after health version internal_sync_run
      internal_dedup_reset internal_get_flow internal_related_flows internal_asset
      internal_prepare_pcap internal_get_pcap ok_handler me check_auth handle_list_events
      handle_get_event get_messages get_tasks get_actions get_commands get_summaries get_executions
      get_hierarchy handle_list_users handle_get_user prompt_list prompt_get prompt_background_get
      engineer_chat_history engineer_status complete_execution
  handler_of-reads post_event_push r s h = absurd (cc h)
  handler_of-reads post_login r s h = absurd (cc h)
  handler_of-reads post_init_admin r s h = absurd (cc h)
  handler_of-reads post_create_user r s h = absurd (cc h)
  handler_of-reads post_change_password r s h = absurd (cc h)
  handler_of-reads post_create_event r s h = absurd (cc h)
  handler_of-reads post_send_message r s h = absurd (cc h)
  handler_of-reads put_user r s h = absurd (cc h)
  handler_of-reads delete_one_user r s h = absurd (cc h)
  handler_of-reads put_user_password r s h = absurd (cc h)
  handler_of-reads put_mode r s h = absurd (cc h)
  handler_of-reads post_chat r s h = absurd (cc h)
  handler_of-reads get_mode r s h = driving_mode_get_compat-reads r s
  handler_of-reads post_complete_execution r s h =
      if-elim (λ s'. (store_of s' ≡ store_of s) × (s'.tokens ≡ s.tokens))
        (is_success (complete_execution r s).1 && not (r.path_value "event_id" == "")) _ _
        (λ _. (refl, refl)) (λ _. (refl, refl))
  handler_of-reads _ r s h = (refl, refl)

  -- Whatever is asked of a route that is not one of `writes`, and whatever the answer, the store and
  -- the tokens are as they were.
  pub serve-reads :
      (route : Route) (r : Request) (s : Server)
      → writes route ≡ false
      → (store_of (serve x route r s).0 ≡ store_of s) × ((serve x route r s).0.tokens ≡ s.tokens)
  unfolding serve with_cors
  serve-reads route r s h =
      if-elim (SameData s) (r.method == "OPTIONS") _ _ (λ _. (refl, refl))
        (λ _. handler_of-reads route r s h)
