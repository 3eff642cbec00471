-- ===== src/Api/Served.antt =====
-- internal/httpapi/server.go: all that a request does to the store is calls of the store's methods,
-- whatever its route and its answer.
pub mod Reads
pub mod Whole
use traffic_analysis.Base.{
  ℕ, Bool, true, false, not, ◌||◌, ◌&&◌, String, Option, none, some, List, [], ◌∷◌, ◌==◌, ◌≡◌, refl,
  if-elim, inl, inr, Option-cases, Bool-cases, ap,
}
use traffic_analysis.Base.Text.{trim_space}
use traffic_analysis.Value.{Value, Fields, first_non_empty}
use traffic_analysis.Domain.{User, Event, Message}
use traffic_analysis.Store.{MemoryStore, Result, ok, err}
use traffic_analysis.Store.Users.{delete_user, get_user_by_username}
use traffic_analysis.Store.Events.{get_event}
use traffic_analysis.Store.Trace.{step, creates_user, updates_user, deletes_user, adds_message}
use traffic_analysis.Store.Trace.Leads.{Leads, Leads-refl, Leads-trans, Leads-step}
use traffic_analysis.Service.{World}
use traffic_analysis.Service.Ingest.{Ingested, process_ly_event}
use traffic_analysis.Service.Create.{create_event_from_request}
use traffic_analysis.Service.Calls.{process_ly_event-Moves, create_event_from_request-Moves}
use traffic_analysis.Driving.{Desk, get_driving_mode, set_driving_mode}
use traffic_analysis.Driving.Calls.{automate-Leads, stage-get_driving_mode, stage-set_driving_mode}
use traffic_analysis.Api.{
  Request, Data, Reply, Credentials, Site, Server, store_of, reading_of, after, write_error,
  on_decoded, text_at, current_user, require_internal_key,
}
use traffic_analysis.Api.Accounts.{
  store_user, change_user, log_in, login_with, login, refuses, init_admin, init_admin_reply,
  first_admin, handle_create_user, created_reply, requested_user, change_password,
  change_password_of, changed_reply, password_patch, handle_update_user, updated_reply,
  handle_delete_user, deleted_reply, update_user_password,
}
use traffic_analysis.Api.Events.{
  in_world, handle_create_event, created_event_reply, user_message, store_message, sent_reply,
  send_event_message,
}
use traffic_analysis.Api.Internal.{internal_event_push, pushed_reply}
use traffic_analysis.Api.Engineer.{
  engineer_message, chat_reply, answered, ask, engineer_chat_with, engineer_chat_send,
}
use traffic_analysis.Api.Modes.{mode_reply, set_reply, driving_mode_get_compat, driving_mode_put}
use traffic_analysis.Api.Hooks.{
  Handler, after_message, after_execution, after_creation, announce, with_new_message_broadcast,
  with_execution_update_broadcast, with_driving_mode_automation, with_cors, on_publisher,
}

abbrev pub Moves : Server → Server × Reply → Type 0
Moves s p = Leads (store_of s) (store_of p.0)

abbrev pub stays : (s : Server) → Leads (store_of s) (store_of s)
stays s = Leads-refl (store_of s)

pub on_decoded-Moves :
    {A : Type 0} (s : Server) (r : Result A) (next : A → Server × Reply)
    → ((a : A) → Moves s (next a))
    → Moves s (on_decoded s r next)
unfolding on_decoded
on_decoded-Moves s (err e) next moves = stays s
on_decoded-Moves s (ok a) next moves = moves a

module _ (x : Site) where
  store_user-Moves : (u : User) (s : Server) → Leads (store_of s) (store_of (store_user x u s).0)
  unfolding store_user after step
  store_user-Moves u s = Leads-step (creates_user _ _ _) (store_of s)

  change_user-Moves :
      (id : String) (patch : Fields) (s : Server)
      → Leads (store_of s) (store_of (change_user x id patch s).0)
  unfolding change_user after step
  change_user-Moves id patch s = Leads-step (updates_user _ _ _ _) (store_of s)

  pub store_message-Moves :
      (m : Message) (s : Server) → Leads (store_of s) (store_of (store_message x m s).0)
  unfolding store_message after step
  store_message-Moves m s = Leads-step (adds_message _ _ _) (store_of s)

  module _ (start : Server) where
    created_reply-Moves :
        (p : Server × Result User)
        → Leads (store_of start) (store_of p.0)
        → Moves start (created_reply x p)
    unfolding created_reply
    created_reply-Moves (s, ok u) m = m
    created_reply-Moves (s, err e) m = m

    init_admin_reply-Moves :
        (name : String) (p : Server × Result User)
        → Leads (store_of start) (store_of p.0)
        → Moves start (init_admin_reply x name p)
    unfolding init_admin_reply
    init_admin_reply-Moves name (s, ok u) m = m
    init_admin_reply-Moves name (s, err e) m = m

    updated_reply-Moves :
        (p : Server × Option User)
        → Leads (store_of start) (store_of p.0)
        → Moves start (updated_reply x p)
    unfolding updated_reply
    updated_reply-Moves (s, some u) m = m
    updated_reply-Moves (s, none) m = m

    changed_reply-Moves :
        (p : Server × Option User)
        → Leads (store_of start) (store_of p.0)
        → Moves start (changed_reply x p)
    unfolding changed_reply
    changed_reply-Moves (s, some u) m = m
    changed_reply-Moves (s, none) m = m

    pub sent_reply-Moves :
        (p : Server × Result Message)
        → Leads (store_of start) (store_of p.0)
        → Moves start (sent_reply x p)
    unfolding sent_reply
    sent_reply-Moves (s, ok m) l = l
    sent_reply-Moves (s, err e) l = l

    pub chat_reply-Moves :
        (reply : String) (p : Server × Result Message)
        → Leads (store_of start) (store_of p.0)
        → Moves start (chat_reply x reply p)
    unfolding chat_reply
    chat_reply-Moves reply (s, r) l = l

  module _ (r : Request) (s : Server) where
    pub login-Moves : Moves s (login x r s)
    unfolding login login_with log_in after
    login-Moves =
        on_decoded-Moves s _ _ (λ req. found req (get_user_by_username (store_of s) req.username))
      where
        found : (req : Credentials) (o : Option User) → Moves s (login_with x req s o)
        found req none = stays s
        found req (some u) =
            if-elim (Moves s) (refuses x req u) _ _ (λ _. stays s)
              (λ _. change_user-Moves u.user_id _ _)

    pub init_admin-Moves : Moves s (init_admin x r s)
    unfolding init_admin
    init_admin-Moves =
        on_decoded-Moves s _ _ (λ body. init_admin_reply-Moves s _ _ (store_user-Moves _ s))

    pub handle_create_user-Moves : Moves s (handle_create_user x r s)
    unfolding handle_create_user
    handle_create_user-Moves = on_decoded-Moves s _ _ (λ body.
        if-elim (Moves s) (text_at x body "username" == "") _ _ (λ _. stays s)
          (λ _. created_reply-Moves s _ (store_user-Moves _ s)))

    pub change_password-Moves : Moves s (change_password x r s)
    unfolding change_password change_password_of
    change_password-Moves = elim (Option-cases (current_user x r s)) [
      | inl nobody ↦ rw (nobody, change_password) (stays s)
      | inr (u, who) ↦
          rw (who, change_password)
            (on_decoded-Moves s _ _ (λ body.
              if-elim (Moves s)
                (first_non_empty (text_at x body "new_password" ∷ text_at x body "password" ∷ [])
                  == "")
                _ _ (λ _. stays s) (λ _. changed_reply-Moves s _ (change_user-Moves _ _ s))))
    ]

    pub handle_update_user-Moves : Moves s (handle_update_user x r s)
    unfolding handle_update_user
    handle_update_user-Moves =
        on_decoded-Moves s _ _ (λ body. updated_reply-Moves s _ (change_user-Moves _ body s))

    pub update_user_password-Moves : Moves s (update_user_password x r s)
    unfolding update_user_password
    update_user_password-Moves = on_decoded-Moves s _ _ (λ body.
        if-elim (Moves s)
          (first_non_empty (text_at x body "password" ∷ text_at x body "new_password" ∷ []) == "") _
          _ (λ _. stays s) (λ _. updated_reply-Moves s _ (change_user-Moves _ _ s)))

    pub handle_delete_user-Moves : Moves s (handle_delete_user x r s)
    unfolding handle_delete_user step deleted_reply after
    handle_delete_user-Moves =
        deleted (delete_user (r.path_value "user_id") (store_of s))
          (Leads-step (deletes_user (r.path_value "user_id")) (store_of s))
      where
        deleted : (p : MemoryStore × Bool) → Leads (store_of s) p.0 → Moves s (deleted_reply x s p)
        deleted (store, true) m = m
        deleted (store, false) m = m
