-- ===== src/Api/Served/Whole.antt =====
-- internal/httpapi/server.go: what every route keeps of the store.
use traffic_analysis.Base.{◌||◌, String, Option, none, some, ◌==◌, ◌≡◌, refl, if-elim}
use traffic_analysis.Base.Text.{trim_space}
use traffic_analysis.Value.{Value, Fields}
use traffic_analysis.Domain.{Event}
use traffic_analysis.Store.{Result, ok, err}
use traffic_analysis.Store.Trace.Leads.{Leads, Leads-trans, Leads-Keeps, Leads-IsLinkedStore}
use traffic_analysis.Store.Trace.Linked.{IsLinkedStore}
use traffic_analysis.Store.Events.Laws.{Keeps}
use traffic_analysis.Dict.{get}
use traffic_analysis.Service.{World}
use traffic_analysis.Service.Ingest.{Ingested, process_ly_event}
use traffic_analysis.Service.Create.{create_event_from_request}
use traffic_analysis.Service.Calls.{process_ly_event-Moves, create_event_from_request-Moves}
use traffic_analysis.Driving.{Desk, set_driving_mode}
use traffic_analysis.Driving.Calls.{automate-Leads, stage-set_driving_mode}
use traffic_analysis.Api.{
  Request, Reply, Site, Server, store_of, after, text_at, require_internal_key,
}
use traffic_analysis.Api.Events.{
  in_world, handle_create_event, created_event_reply, send_event_message,
}
use traffic_analysis.Api.Internal.{internal_event_push, pushed_reply}
use traffic_analysis.Api.Engineer.{answered, ask, ask_about, engineer_chat_with, engineer_chat_send}
use traffic_analysis.Api.Modes.{set_reply, driving_mode_put}
use traffic_analysis.Api.Hooks.{
  after_message, after_creation, announce, with_new_message_broadcast, with_driving_mode_automation,
  with_cors, on_publisher, is_success,
}
use traffic_analysis.Api.Routes.{
  Route, handler_of, serve, post_event_push, post_login, post_init_admin, post_create_user,
  post_change_password, post_create_event, post_send_message, put_user, delete_one_user,
  put_user_password, put_mode, post_chat,
}
use traffic_analysis.Api.Served.{
  Moves, stays, on_decoded-Moves, store_message-Moves, sent_reply-Moves, chat_reply-Moves,
  login-Moves, init_admin-Moves, handle_create_user-Moves, change_password-Moves,
  handle_update_user-Moves, update_user_password-Moves, handle_delete_user-Moves,
}
use traffic_analysis.Api.Served.Reads.{writes, SameData, handler_of-reads}

module _ (x : Site) where
  module _ (r : Request) (s : Server) where
    handle_create_event-Moves : Moves s (handle_create_event x r s)
    unfolding handle_create_event created_event_reply in_world
    handle_create_event-Moves = on_decoded-Moves s _ _ (λ body.
        created (create_event_from_request x.outside body s.desk.stage.world)
          (create_event_from_request-Moves x.outside body s.desk.stage.world))
      where
        created :
            (p : World × Result Event)
            → Leads (store_of s) p.0.store
            → Moves s (created_event_reply x s p)
        created (w, ok e) m = m
        created (w, err e) m = m

    internal_event_push-Moves : Moves s (internal_event_push x r s)
    unfolding internal_event_push pushed_reply in_world
    internal_event_push-Moves =
        if-elim (Moves s) (require_internal_key x r) _ _
          (λ _. on_decoded-Moves s _ _ (λ ly.
            answers (process_ly_event x.outside ly s.desk.stage.world)
              (process_ly_event-Moves x.outside ly s.desk.stage.world)))
          (λ _. stays s)
      where
        answers :
            (p : World × Result Ingested)
            → Leads (store_of s) p.0.store
            → Moves s (pushed_reply x s p)
        answers (w, ok e) m = m
        answers (w, err e) m = m

    send_event_message-Moves : Moves s (send_event_message x r s)
    unfolding send_event_message
    send_event_message-Moves =
        on_decoded-Moves s _ _ (λ body. sent_reply-Moves x s _ (store_message-Moves x _ s))

    driving_mode_put-Moves : Moves s (driving_mode_put x r s)
    unfolding driving_mode_put set_reply
    driving_mode_put-Moves =
        written (set_driving_mode x.backend (x.decode_enabled r.body) s.desk)
          (stage-set_driving_mode x.backend (x.decode_enabled r.body) s.desk)
      where
        written :
            (p : Desk × Option String)
            → p.0.stage ≡ s.desk.stage
            → Moves s (set_reply (x.decode_enabled r.body) s p)
        written (desk, none) same = rw same (stays s)
        written (desk, some e) same = rw same (stays s)

  module _ (id question : String) where
    answered-Moves :
        (start s : Server) (o : Result String)
        → Leads (store_of start) (store_of s)
        → Moves start (answered x id s o)
    unfolding answered
    answered-Moves start s (err e) m = m
    answered-Moves start s (ok reply) m =
        chat_reply-Moves x start reply _ (Leads-trans m (store_message-Moves x _ s))

    ask-Moves : (s : Server) (e : Event) → Moves s (ask x id question s e)
    unfolding ask after
    ask-Moves s e = answered-Moves s _ _ (store_message-Moves x _ s)

  ask_about-Moves :
      (id question : String) (s : Server) (o : Option Event) → Moves s (ask_about x id question s o)
  unfolding ask_about
  ask_about-Moves id question s none = stays s
  ask_about-Moves id question s (some e) = ask-Moves id question s e

  engineer_chat_with-Moves : (s : Server) (body : Fields) → Moves s (engineer_chat_with x s body)
  unfolding engineer_chat_with
  engineer_chat_with-Moves s body =
      if-elim (Moves s)
        (text_at x body "event_id" == "" || trim_space (text_at x body "message") == "") _ _
        (λ _. stays s) (λ _. ask_about-Moves _ _ s _)

  -- The hooks do not touch the store, but for the automation.
  store-announce :
      (id : String) (payload : Option Value) (s : Server)
      → store_of (announce id payload s) ≡ store_of s
  unfolding announce on_publisher
  store-announce id none s = refl
  store-announce id (some payload) s =
      if-elim (λ s'. store_of s' ≡ store_of s) (id == "") _ _ (λ _. refl) (λ _. refl)

  after_message-Moves :
      (id : String) (start : Server) (p : Server × Reply)
      → Moves start p
      → Moves start (after_message x id p)
  unfolding after_message
  after_message-Moves id start (s, reply) m =
      if-elim (λ s'. Leads (store_of start) (store_of s')) (is_success reply) _ _
        (λ _. rw (store-announce _ _ s) m) (λ _. m)

  after_creation-Moves :
      (r : Request) (start : Server) (p : Server × Reply)
      → Moves start p
      → Moves start (after_creation x r p)
  unfolding after_creation
  after_creation-Moves r start (s, reply) m =
      Leads-trans m (automate-Leads x.backend x.outside x.crew _ _ _ _ s.desk)

  still : (s : Server) (p : Server × Reply) → SameData x s p → Moves s p
  still s p same = rw (same.0) (stays s)

  handler_of-Moves : (route : Route) (r : Request) (s : Server) → Moves s (handler_of x route r s)
  unfolding handler_of writes with_driving_mode_automation with_new_message_broadcast
      engineer_chat_send
  handler_of-Moves post_event_push r s = after_creation-Moves r s _ (internal_event_push-Moves r s)
  handler_of-Moves post_login r s = login-Moves x r s
  handler_of-Moves post_init_admin r s = init_admin-Moves x r s
  handler_of-Moves post_create_user r s = handle_create_user-Moves x r s
  handler_of-Moves post_change_password r s = change_password-Moves x r s
  handler_of-Moves post_create_event r s =
      after_creation-Moves r s _ (handle_create_event-Moves r s)
  handler_of-Moves post_send_message r s = after_message-Moves _ s _ (send_event_message-Moves r s)
  handler_of-Moves put_user r s = handle_update_user-Moves x r s
  handler_of-Moves delete_one_user r s = handle_delete_user-Moves x r s
  handler_of-Moves put_user_password r s = update_user_password-Moves x r s
  handler_of-Moves put_mode r s = driving_mode_put-Moves r s
  handler_of-Moves post_chat r s =
      after_message-Moves _ s _ (on_decoded-Moves s _ _ (engineer_chat_with-Moves s))
  handler_of-Moves route r s = still s (handler_of x route r s) (handler_of-reads x route r s refl)

  serve-Leads :
      (route : Route) (r : Request) (s : Server)
      → Leads (store_of s) (store_of (serve x route r s).0)
  unfolding serve with_cors
  serve-Leads route r s =
      if-elim (Moves s) (r.method == "OPTIONS") _ _ (λ _. stays s) (λ _. handler_of-Moves route r s)

  -- Whatever a request is and whatever answers it gets from outside, an event that was in the store
  -- is there under its key afterwards, with its number, id, title, source, category, round,
  -- observables and time of creation.
  pub serve-Keeps :
      (route : Route) (r : Request) (s : Server) (key : String) (e : Event)
      → get (store_of s).events key ≡ some e
      → Keeps (store_of (serve x route r s).0) key e
  serve-Keeps route r s = Leads-Keeps (serve-Leads route r s)

  -- Whatever a request is and whatever answers it gets from outside, a store in which each message,
  -- task, action, command, execution and summary is kept under the id of its own event, which is in
  -- the store, is such a store afterwards.
  pub serve-IsLinkedStore :
      (route : Route) (r : Request) (s : Server)
      → IsLinkedStore (store_of s)
      → IsLinkedStore (store_of (serve x route r s).0)
  serve-IsLinkedStore route r s = Leads-IsLinkedStore (serve-Leads route r s)
