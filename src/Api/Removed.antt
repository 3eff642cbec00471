-- ===== src/Api/Removed.antt =====
-- internal/httpapi/server.go: what the removal of a user does to the requests that follow.
use Prim.Native.String.{◌++◌ as append}
use traffic_analysis.Base.{String, none, some, ◌≡◌, ◌≢◌, refl}
use traffic_analysis.Dict.{get}
use traffic_analysis.Domain.{User}
use traffic_analysis.Store.Users.{get_user, delete_user}
use traffic_analysis.Store.Users.Changes.{delete_user_found, delete_user_found-gone}
use traffic_analysis.Api.{
  Request, Site, Server, store_of, after, write_error, current_user, user_of, success_reply,
  nothing,
}
use traffic_analysis.Api.Accounts.{change_password, me, handle_delete_user, deleted_reply}
use traffic_analysis.Api.Sessions.{current_user_token}

module _ (x : Site) where
  module _ (r : Request) (s : Server) {u : User}
      (there : get_user (store_of s) (r.path_value "user_id") ≡ some u) where
    handle_delete_user_found : handle_delete_user x r s ≡ (
      after (delete_user (r.path_value "user_id") (store_of s)).0 0 s,
      success_reply "用户已删除" nothing,
    )
    unfolding handle_delete_user get_user deleted_reply
    handle_delete_user_found =
        rw (delete_user_found (r.path_value "user_id") (store_of s) there) refl

    -- A user who is there is deleted, which is answered with 200. A request with a token that leads
    -- to this user is then one of nobody: it is refused by GET /api/auth/me and by
    -- POST /api/auth/change-password, which changes nothing.
    pub handle_delete_user-logged_out :
        (r' : Request) (token : String)
        → token ≢ ""
        → r'.header "Authorization" ≡ append "Bearer " token
        → get s.tokens token ≡ some (r.path_value "user_id")
        → (let s' = (handle_delete_user x r s).0 in
            ((handle_delete_user x r s).1.code ≡ 200)
            × (current_user x r' s' ≡ none)
            × (me x r' s' ≡ (s', write_error 401 "UNAUTHORIZED"))
            × (change_password x r' s' ≡ (s', write_error 401 "UNAUTHORIZED")))
    unfolding user_of after success_reply get_user me change_password
    handle_delete_user-logged_out r' token given carried known =
        let s' = (handle_delete_user x r s).0 in
        let nobody : current_user x r' s' ≡ none =
          rw (current_user_token x r' s' token given carried, handle_delete_user_found, known)
            (delete_user_found-gone (r.path_value "user_id") (store_of s) there).0 in
        (
          rw handle_delete_user_found refl,
          nobody,
          rw (me, nobody) refl,
          rw (change_password, nobody) refl,
        )
