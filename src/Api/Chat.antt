-- ===== src/Api/Chat.antt =====
-- internal/httpapi/server.go: what sending a message and asking the model leave in an event's
-- messages.
pub mod Asked
pub mod Sent
use traffic_analysis.Base.{
  ℕ, ◌+◌, Bool, true, false, not, ◌||◌, ◌&&◌, String, Option, none, some, List, [], ◌∷◌, ◌++◌, ◌==◌,
  ltb, leb, if◌then◌else◌, ◌≡◌, ◌≢◌, refl, ◌∙◌, sym, arith, ap, eq_iff, eq_refl, if-false, if-true,
  inc64,
}
use traffic_analysis.Base.Text.{trim_space}
use traffic_analysis.Dict.{Dict, get}
use traffic_analysis.Value.{Value, Fields, obj, at}
use traffic_analysis.Domain.{Event, Message}
use traffic_analysis.Domain.Roles.{role_user, role_assistant}
use traffic_analysis.Store.{MemoryStore, Result, ok, err}
use traffic_analysis.Store.Events.{get_event}
use traffic_analysis.Store.Rows.Laws.{rows_of-append_row}
use mathlib.Core.Path.{subst}
use traffic_analysis.Store.Rows.{rows_of, append_row}
use traffic_analysis.Store.Messages.{add_message, added_message}
use traffic_analysis.Store.Messages.Laws.{event_id-added_message}
use traffic_analysis.Realtime.{broadcast_message}
use traffic_analysis.Api.{
  Request, Reply, Site, Server, message, store_of, reading_of, after, success_reply, write_error,
  on_decoded_ok, text_at,
}
use traffic_analysis.Api.Events.{store_message, user_message, sent_reply, send_event_message}
use traffic_analysis.Api.Engineer.{
  engineer_message, chat_reply, answered, ask, ask_about, engineer_chat_with, engineer_chat_send,
  engineer_event_prompt,
}

abbrev pub rows : Server → String → List Message
rows s id = rows_of (store_of s).messages_by_event id

rows_of-append_row_self :
    (m : Dict (List Message)) (k : String) (r : Message)
    → rows_of (append_row m k r) k ≡ rows_of m k ++ r ∷ []
rows_of-append_row_self m k r = rows_of-append_row m k k r ∙ if-true _ _ (eq_refl k)

module _ (x : Site) (m : Message) (s : Server) where
  -- The message as AddMessage stores it.
  abbrev pub kept : Message
  kept =
      added_message (x.outside.now (reading_of s)) (x.outside.new_id (reading_of s) "msg")
        (inc64 (store_of s).message_seq) m

  pub store_message_missing :
      get (store_of s).events m.event_id ≡ none
      → store_message x m s ≡ (after (store_of s) 1 s, err "event not found")
  unfolding store_message add_message after
  store_message_missing missing = rw (missing, add_message) refl

  module _ {e : Event} (there : get (store_of s).events m.event_id ≡ some e) where
    abbrev grown : MemoryStore
    grown = record (store_of s) {
      message_seq = inc64 (store_of s).message_seq;
      messages_by_event = append_row (store_of s).messages_by_event kept.event_id kept;
    }

    pub store_message_there : store_message x m s ≡ (after grown 1 s, ok kept)
    unfolding store_message add_message after
    store_message_there = rw (there, add_message) refl

    pub rows-store_message :
        rows (store_message x m s).0 m.event_id ≡ rows s m.event_id ++ kept ∷ []
    unfolding after
    rows-store_message =
        let table = (store_of s).messages_by_event in
        let own : kept.event_id ≡ m.event_id =
          event_id-added_message (x.outside.now (reading_of s))
            (x.outside.new_id (reading_of s) "msg") (inc64 (store_of s).message_seq) m in
        ap (λ (p : Server × Result Message). rows p.0 m.event_id) store_message_there
        ∙ subst
            (λ k. rows_of (append_row table kept.event_id kept) k ≡ rows_of table k ++ kept ∷ [])
            own (rows_of-append_row_self table kept.event_id kept)

    pub events-store_message : (store_of (store_message x m s).0).events ≡ (store_of s).events
    unfolding after
    events-store_message = rw store_message_there refl

-- What a conversation adds to an event's messages.
module _ (x : Site) (id question : String) (s : Server) {e : Event}
    (there : get (store_of s).events id ≡ some e) where
  abbrev pub asking : Message
  asking = engineer_message x id role_user "user_message" question "user"

  abbrev asked : Server
  asked = (store_message x asking s).0

  -- The server that the model is asked from.
  abbrev pub waiting : Server
  waiting = after (store_of asked) 1 asked

  abbrev pub said : Result String
  said = x.chat (reading_of asked) (engineer_event_prompt x e question asked)

  abbrev pub answering : String → Message
  answering reply = engineer_message x id role_assistant "assistant_response" reply "ai"

  rows-waiting : rows waiting id ≡ rows s id ++ kept x asking s ∷ []
  unfolding after engineer_message
  rows-waiting = rows-store_message x asking s there

  events-waiting : (store_of waiting).events ≡ (store_of s).events
  unfolding after engineer_message
  events-waiting = events-store_message x asking s there

  ask_failed :
      (text : String) → said ≡ err text → ask x id question s e ≡ (waiting, write_error 502 text)
  unfolding ask answered
  ask_failed text failed = rw (failed, answered) refl

  ask_answered :
      (reply : String)
      → said ≡ ok reply
      → ask x id question s e ≡ chat_reply x reply (store_message x (answering reply) waiting)
  unfolding ask answered
  ask_answered reply good = rw (good, answered) refl
