-- ===== src/Api/Chat/Asked.antt =====
-- internal/httpapi/server.go: POST /api/engineer-chat/send.
use traffic_analysis.Base.{
  false, ◌||◌, String, some, [], ◌∷◌, ◌++◌, ◌==◌, ◌≡◌, ◌≢◌, refl, ◌∙◌, arith, ap, eq_iff, if-false,
  append_two,
}
use traffic_analysis.Base.Text.{trim_space}
use traffic_analysis.Dict.{get}
use traffic_analysis.Value.{Fields}
use traffic_analysis.Domain.{Event}
use traffic_analysis.Store.{ok, err}
use traffic_analysis.Store.Events.{get_event}
use traffic_analysis.Api.{
  Request, Site, Server, store_of, write_error, success_reply, on_decoded_ok, text_at,
}
use traffic_analysis.Api.Engineer.{
  engineer_message, chat_reply, ask, ask_about, engineer_chat_with, engineer_chat_send,
}
use traffic_analysis.Api.Chat.{
  rows, kept, asking, answering, waiting, said, rows-waiting, events-waiting, ask_failed,
  ask_answered, rows-store_message,
}

module _ (x : Site) (r : Request) (s : Server) {body : Fields}
    (decodes : x.decode_map r.body ≡ ok body) where
  abbrev id : String
  id = text_at x body "event_id"

  abbrev question : String
  question = text_at x body "message"

  module _ {e : Event} (there : get (store_of s).events id ≡ some e) (named : id ≢ "")
      (asks : trim_space question ≢ "") where
    engineer_chat_send_there : engineer_chat_send x r s ≡ ask x id question s e
    unfolding engineer_chat_send engineer_chat_with ask_about get_event
    engineer_chat_send_there =
        let whole : (id == "" || trim_space question == "") ≡ false =
          ground (arith, eq_iff id "", eq_iff (trim_space question) "") in
        on_decoded_ok s _ decodes
        ∙ if-false _ (ask_about x id question s (get (store_of s).events id)) whole
        ∙ ap (ask_about x id question s) there

    -- A question about an event that is there, with a text that is not blank. Where the model
    -- fails, the answer is 502 and the question alone is added to the event's messages. Where it
    -- answers, the answer is 200, and the question and then the model's answer are added.
    pub engineer_chat_send-rows :
        ((text : String)
          → said x id question s there ≡ err text
          → ((engineer_chat_send x r s).1.code ≡ 502)
            × (rows (engineer_chat_send x r s).0 id
                ≡ rows s id ++ kept x (asking x id question s there) s ∷ []))
        × ((reply : String)
            → said x id question s there ≡ ok reply
            → ((engineer_chat_send x r s).1.code ≡ 200)
              × (rows (engineer_chat_send x r s).0 id
                  ≡ rows s id
                    ++ kept x (asking x id question s there) s
                      ∷ kept x
                          (answering x id question s there reply)
                          (waiting x id question s there)
                      ∷ []))
    unfolding write_error chat_reply success_reply engineer_message
    engineer_chat_send-rows = (
      λ text failed.
          rw (engineer_chat_send_there, ask_failed x id question s there text failed)
            (refl, rows-waiting x id question s there),
      λ reply good.
          let still_there : get (store_of (waiting x id question s there)).events id ≡ some e =
            rw (events-waiting x id question s there) there in
          rw (engineer_chat_send_there, ask_answered x id question s there reply good)
            (
              refl,
              rows-store_message x (answering x id question s there reply)
                    (waiting x id question s there) still_there
                  ∙ ap
                      (λ list.
                        list
                        ++ kept x (answering x id question s there reply)
                            (waiting x id question s there)
                          ∷ [])
                      (rows-waiting x id question s there)
                  ∙ append_two _ _ _,
            ),
    )
