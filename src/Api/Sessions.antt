-- ===== src/Api/Sessions.antt =====
-- internal/httpapi/server.go: what a login, a new password and a removed user do to the requests
-- that follow.
use Prim.Native.String.{◌++◌ as append}
use traffic_analysis.Base.{
  ℕ, ◌+◌, true, false, String, none, some, if◌then◌else◌, if-true, if-false, ◌≡◌, ◌≢◌, refl, arith,
  eq_iff,
}
use traffic_analysis.Base.Prefix.{trim_prefix-append}
use traffic_analysis.Dict.{get, put}
use traffic_analysis.Dict.Laws.{get-put_self}
use traffic_analysis.Value.{Fields, at, time, end, field}
use traffic_analysis.Domain.{User}
use traffic_analysis.Store.{ok}
use traffic_analysis.Store.Patch.{time_patch}
use traffic_analysis.Store.Users.{get_user, get_user_by_username, patched_user}
use traffic_analysis.Store.Users.Laws.{IsIndexed, get_user_by_username-IsIndexed}
use traffic_analysis.Store.Users.Changes.{update_user_found}
use traffic_analysis.Api.{
  Request, Credentials, Site, Server, store_of, reading_of, after, write_error, current_user,
  user_of, on_decoded_ok,
}
use traffic_analysis.Api.Accounts.{login, login_with, log_in, login_reply, refuses, change_user}

module _ (x : Site) where
  pub change_user_found :
      (id : String) (patch : Fields) (s : Server) {u : User}
      → get (store_of s).users_by_id id ≡ some u
      → change_user x id patch s ≡ (
          let changed = patched_user x.parse_time (x.outside.now (reading_of s)) patch u in
          (
            after
                (record (store_of s) { users_by_id = put (store_of s).users_by_id id changed })
                1
                s,
            some changed,
          ))
  unfolding change_user
  change_user_found id patch s found =
      rw (update_user_found x.parse_time (x.outside.now (reading_of s)) id patch (store_of s) found)
        refl

  pub tokens-change_user :
      (id : String) (patch : Fields) (s : Server) → (change_user x id patch s).0.tokens ≡ s.tokens
  unfolding change_user after
  tokens-change_user id patch s = refl

  -- After an update of a user who is there, the id finds what the update made of the user.
  pub user_of-change_user :
      (id : String) (patch : Fields) (s : Server) {u : User}
      → get (store_of s).users_by_id id ≡ some u
      → user_of (change_user x id patch s).0 (some id)
        ≡ some (patched_user x.parse_time (x.outside.now (reading_of s)) patch u)
  unfolding user_of get_user after
  user_of-change_user id patch s {u} found = rw (change_user_found id patch s found) (
      get-put_self (store_of s).users_by_id id
        (patched_user x.parse_time (x.outside.now (reading_of s)) patch u))

  -- The user that a request's token leads to.
  pub current_user_token :
      (r : Request) (s : Server) (token : String)
      → token ≢ ""
      → r.header "Authorization" ≡ append "Bearer " token
      → current_user x r s ≡ user_of s (get s.tokens token)
  unfolding current_user
  current_user_token r s token given carried =
      rw (carried, trim_prefix-append "Bearer " token)
        (if-false none (user_of s (get s.tokens token)) (ground (arith, eq_iff token "")))

  module _ (r : Request) (s : Server) {req : Credentials}
      (decodes : x.decode_login r.body ≡ ok req) where
    pub login_missing :
        get_user_by_username (store_of s) req.username ≡ none
        → login x r s ≡ (s, write_error 401 "用户名或密码错误")
    unfolding login login_with
    login_missing missing = rw (on_decoded_ok s _ decodes, missing, login_with) refl

    pub login_found :
        {u : User}
        → get_user_by_username (store_of s) req.username ≡ some u
        → login x r s ≡ (if refuses x req u then (s, write_error 401 "用户名或密码错误") else log_in x u s)
    unfolding login login_with
    login_found found = rw (on_decoded_ok s _ decodes, found, login_with) refl

    abbrev token : String
    token = x.random_token (reading_of s)

    abbrev login_time : ℕ
    login_time = x.outside.now (reading_of s + 1)

    module _ {u : User} (found : get_user_by_username (store_of s) req.username ≡ some u) where
      pub login_refused : refuses x req u ≡ true → login x r s ≡ (s, write_error 401 "用户名或密码错误")
      login_refused h = rw (login_found found) (if-true _ _ h)

      pub login_accepted : refuses x req u ≡ false → login x r s ≡ log_in x u s
      login_accepted h = rw (login_found found) (if-false _ _ h)

      -- A login with the name of an active user and the user's password answers with a token. A
      -- request with "Bearer " and this token, where it is not empty, is then one of that user,
      -- whose last login is the time of this one. The two maps of users are each other's index.
      pub login-current_user :
          IsIndexed (store_of s)
          → refuses x req u ≡ false
          → token ≢ ""
          → (r' : Request) → r'.header "Authorization" ≡ append "Bearer " token
          → ((login x r s).1 ≡ login_reply x token u)
            × (u' : User) × (current_user x r' (login x r s).0 ≡ some u')
            × (u'.user_id ≡ u.user_id)
            × (u'.username ≡ req.username)
            × (u'.last_login_at ≡ some login_time)
      unfolding log_in after patched_user time_patch at
      login-current_user v accepted given r' carried =
          let (at_id, named, there) =
            get_user_by_username-IsIndexed (store_of s) req.username v found in
          let issued : Server = record s { tokens = put s.tokens token u.user_id } in
          let patch = field "last_login_at" (time login_time (x.time_text login_time)) end in
          let waiting = after (store_of s) 2 issued in
          let known : get (change_user x u.user_id patch waiting).0.tokens token ≡ some u.user_id =
            rw (tokens-change_user u.user_id patch waiting)
              (get-put_self s.tokens token u.user_id) in
          rw (login_accepted accepted) (
            refl,
            patched_user x.parse_time (x.outside.now (reading_of s + 2)) patch u,
            rw
                (
                  current_user_token r' (change_user x u.user_id patch waiting).0 token given
                      carried,
                  known,
                )
                (user_of-change_user u.user_id patch waiting at_id),
            refl,
            named,
            refl,
          )
