-- ===== src/Ly/Entry.antt =====
-- internal/lyserver/handlers.go: who Auth lets in.
use Prim.Native.String.{◌++◌ as append}
use traffic_analysis.Base.{
  ◌+◌, true, false, String, none, [], ◌∷◌, ◌++◌, ◌≡◌, refl, arith, if-true, if-false, ◌∙◌,
  append_two,
}
use traffic_analysis.Value.{str}
use traffic_analysis.Store.{ok}
use traffic_analysis.Ly.{
  Ly, LyRequest, LyUser, Statement, Journal, read_params, require_db, after_ping, sent_on,
}
use traffic_analysis.Ly.Settings.{
  statement, user_text, session_text, auth, auth_name, auth_password, auth_user, open_session,
  session_reply, denies,
}

module _ (l : Ly) (r : LyRequest) (w : Journal) (on : l.has_db ≡ true)
    (alive : l.ping w.calls ≡ none) where
  abbrev pub pinged : Journal
  pinged = record w { calls = w.calls + 1 }

  abbrev pub asked_user : Statement
  asked_user = statement user_text (str (auth_name l (read_params r)) ∷ [])

  abbrev pub entry_token : String
  entry_token = append "ly-" (l.nanos (sent_on asked_user pinged).calls)

  auth_asks :
      auth l r w
      ≡ auth_user l r
          (auth_password l (read_params r))
          (sent_on asked_user pinged)
          (l.query_user pinged.calls asked_user)
  unfolding auth require_db after_ping
  auth_asks = if-true _ _ on ∙ rw (alive, after_ping) refl

  module _ {row : LyUser} (found : l.query_user pinged.calls asked_user ≡ ok row) where
    abbrev pub session : Statement
    session = statement session_text (str row.username ∷ str entry_token ∷ str r.remote_addr ∷ [])

    -- A request without a password, for an enabled user with whatever password: Auth answers with a
    -- token, and has the database store a session of that user with the token. The database is
    -- there and finds the user.
    pub auth-no_password :
        auth_password l (read_params r) ≡ ""
        → ((auth l r w).1 ≡ session_reply l row entry_token)
          × ((auth l r w).0.issued ≡ w.issued ++ asked_user ∷ session ∷ [])
    unfolding auth_user denies open_session sent_on
    auth-no_password absent =
        let open_door : denies l row "" ≡ false = ground arith in
        let lets_in : auth_user l r (auth_password l (read_params r)) (sent_on asked_user pinged)
              (l.query_user pinged.calls asked_user)
            ≡ open_session l r row (sent_on asked_user pinged) =
          rw (found, absent, auth_user) (if-false _ _ open_door) in
        rw (auth_asks, lets_in) (refl, append_two w.issued asked_user session)
