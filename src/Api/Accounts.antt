-- ===== src/Api/Accounts.antt =====
-- internal/httpapi/server.go: the handlers of /api/auth and /api/user.
use traffic_analysis.Base.{
  ◌+◌, Bool, true, false, not, ◌||◌, ◌&&◌, String, Option, none, some, [], ◌∷◌, ◌==◌, if◌then◌else◌,
}
use traffic_analysis.Dict.{put, keys, is_some}
use traffic_analysis.Value.{Fields, str, time, boolean, obj, end, field, first_non_empty}
use traffic_analysis.Domain.{User}
use traffic_analysis.Store.{MemoryStore, Result, ok, err}
use traffic_analysis.Store.Users.{
  create_user, get_user, get_user_by_username, update_user, delete_user, list_users,
}
use traffic_analysis.Api.{
  Request, Reply, Credentials, Site, Server, nothing, value, user, users, no_entries, entry,
  store_of, reading_of, after, write_error, success_reply, plain_reply, on_decoded, text_at,
  current_user,
}

-- A user as a handler builds it from a body, without the fields that the store sets.
unfoldable pub new_user : String → String → String → String → String → String → String → User
new_user user_id username nickname email phone password role = record {
  id = 0;
  user_id = user_id;
  username = username;
  nickname = nickname;
  email = email;
  phone = phone;
  password = password;
  role = role;
  is_active = false;
  last_login_at = none;
  created_at = 0;
  updated_at = 0;
}

module _ (x : Site) where
  -- Store.CreateUser on the server's store.
  unfoldable pub store_user : User → Server → Server × Result User
  store_user u s =
      let n = reading_of s in
      let (store, result) = create_user (x.outside.now n) (x.outside.new_id n "u") u (store_of s) in
      (after store 1 s, result)

  -- Store.UpdateUser on the server's store.
  unfoldable pub change_user : String → Fields → Server → Server × Option User
  change_user user_id patch s =
      let (store, result) =
        update_user x.parse_time (x.outside.now (reading_of s)) user_id patch (store_of s) in
      (after store 1 s, result)

  unfoldable pub login_reply : String → User → Reply
  login_reply token u = plain_reply 200 (
      entry "status" (value (str "success")) (
        entry "access_token" (value (str token))
          (entry "token_type" (value (str "bearer")) (entry "data" (user u) no_entries))))

  -- The server after a login: the token is the user's, and the time of it is stored.
  unfoldable pub log_in : User → Server → Server × Reply
  log_in u s =
      let n = reading_of s in
      let token = x.random_token n in
      let now = x.outside.now (n + 1) in
      let issued : Server = record s { tokens = put s.tokens token u.user_id } in
      let patch = field "last_login_at" (time now (x.time_text now)) end in
      ((change_user u.user_id patch (after (store_of s) 2 issued)).0, login_reply token u)

  -- An empty password of the user lets every password pass.
  unfoldable pub refuses : Credentials → User → Bool
  refuses req u = not u.is_active || (not (u.password == "") && not (req.password == u.password))

  unfoldable pub login_with : Credentials → Server → Option User → Server × Reply
  login_with req s none = (s, write_error 401 "用户名或密码错误")
  login_with req s (some u) = if refuses req u then (s, write_error 401 "用户名或密码错误") else log_in u s

  unfoldable pub login : Request → Server → Server × Reply
  login r s =
      on_decoded s (x.decode_login r.body)
        (λ req. login_with req s (get_user_by_username (store_of s) req.username))

  unfoldable pub me : Request → Server → Server × Reply
  me r s = (
    s,
    elim (current_user x r s) [
      | none ↦ write_error 401 "UNAUTHORIZED"
      | some u ↦ success_reply "" (user u)
    ],
  )

  unfoldable pub check_auth : Request → Server → Server × Reply
  check_auth r s = (
    s,
    plain_reply 200
        (entry "authenticated" (value (boolean (is_some (current_user x r s)))) no_entries),
  )

  unfoldable pub text_or : Fields → String → String → String
  text_or body key other = first_non_empty (text_at x body key ∷ other ∷ [])

  unfoldable pub first_admin : Fields → User
  first_admin body =
      new_user (text_or body "user_id" "admin") (text_or body "username" "admin")
        (text_or body "nickname" "管理员") (text_or body "email" "admin@example.local") ""
        (text_or body "password" "admin") "admin"

  unfoldable pub init_admin_reply : String → Server × Result User → Server × Reply
  init_admin_reply username (s, ok created) = (s, success_reply "" (user created))
  init_admin_reply username (s, err e) =
      (s, success_reply "管理员已存在" (value (obj (field "username" (str username) end))))

  unfoldable pub init_admin : Request → Server → Server × Reply
  init_admin r s =
      on_decoded s (x.decode_map r.body)
        (λ body. init_admin_reply (first_admin body).username (store_user (first_admin body) s))

  unfoldable pub requested_user : Fields → User
  requested_user body =
      new_user (text_at x body "user_id") (text_at x body "username") (text_at x body "nickname")
        (text_at x body "email") (text_at x body "phone") (text_or body "password" "ChangeMe123!")
        (text_or body "role" "user")

  unfoldable pub created_reply : Server × Result User → Server × Reply
  created_reply (s, ok created) = (s, success_reply "" (user created))
  created_reply (s, err e) = (s, write_error 409 e)

  unfoldable pub handle_create_user : Request → Server → Server × Reply
  handle_create_user r s = on_decoded s (x.decode_map r.body) (λ body.
      if text_at x body "username" == ""
      then (s, write_error 400 "username不能为空")
      else created_reply (store_user (requested_user body) s))

  unfoldable pub updated_reply : Server × Option User → Server × Reply
  updated_reply (s, some u) = (s, success_reply "" (user u))
  updated_reply (s, none) = (s, write_error 404 "用户不存在")

  -- The user that UpdateUser gives in changePassword, the empty one where there is none.
  unfoldable pub changed_reply : Server × Option User → Server × Reply
  changed_reply (s, some u) = (s, success_reply "" (user u))
  changed_reply (s, none) = (s, success_reply "" (user (new_user "" "" "" "" "" "" "")))

  unfoldable pub password_patch : String → Fields
  password_patch password = field "password" (str password) end

  unfoldable pub change_password_of : User → Server → Fields → Server × Reply
  change_password_of u s body =
      let password =
        first_non_empty (text_at x body "new_password" ∷ text_at x body "password" ∷ []) in
      if password == ""
      then (s, write_error 400 "password不能为空")
      else changed_reply (change_user u.user_id (password_patch password) s)

  unfoldable pub change_password : Request → Server → Server × Reply
  change_password r s = elim (current_user x r s) [
    | none ↦ (s, write_error 401 "UNAUTHORIZED")
    | some u ↦ on_decoded s (x.decode_map r.body) (change_password_of u s)
  ]

  unfoldable pub handle_list_users : Request → Server → Server × Reply
  handle_list_users r s = (
    s,
    success_reply "" (
        users
          (list_users (x.crew.visit (reading_of s) (keys (store_of s).users_by_id)) (store_of s))),
  )

  unfoldable pub handle_get_user : Request → Server → Server × Reply
  handle_get_user r s = (
    s,
    elim (get_user (store_of s) (r.path_value "user_id")) [
      | none ↦ write_error 404 "用户不存在"
      | some u ↦ success_reply "" (user u)
    ],
  )

  unfoldable pub handle_update_user : Request → Server → Server × Reply
  handle_update_user r s =
      on_decoded s (x.decode_map r.body)
        (λ body. updated_reply (change_user (r.path_value "user_id") body s))

  unfoldable pub deleted_reply : Server → MemoryStore × Bool → Server × Reply
  deleted_reply s (store, true) = (after store 0 s, success_reply "用户已删除" nothing)
  deleted_reply s (store, false) = (after store 0 s, write_error 404 "用户不存在")

  unfoldable pub handle_delete_user : Request → Server → Server × Reply
  handle_delete_user r s = deleted_reply s (delete_user (r.path_value "user_id") (store_of s))

  unfoldable pub update_user_password : Request → Server → Server × Reply
  update_user_password r s = on_decoded s (x.decode_map r.body) (λ body.
      let password =
        first_non_empty (text_at x body "password" ∷ text_at x body "new_password" ∷ []) in
      if password == ""
      then (s, write_error 400 "password不能为空")
      else updated_reply (change_user (r.path_value "user_id") (password_patch password) s))
