-- ===== src/Ly/Settings.antt =====
-- internal/lyserver/handlers.go: Auth, Status, GetConfig and SetConfig.
use Prim.Native.String.{◌++◌ as append}
use traffic_analysis.Base.{
  Bool, not, ◌&&◌, String, Option, none, some, List, [], ◌∷◌, ◌==◌, if◌then◌else◌,
}
use traffic_analysis.Base.Search.{decimal}
use traffic_analysis.Dict.{Dict}
use traffic_analysis.Value.{Value, Fields, Items, str, number, obj, arr, end, field, item, done}
use traffic_analysis.Store.{Result, ok, err}
use traffic_analysis.Ly.{
  Ly, LyRequest, LyReply, LyUser, Statement, Journal, first_trimmed, query_value, read_params,
  param, ly_error, ly_success, sent_on, query_rows, answer_with, require_db,
}

abbrev pub user_text : String
user_text =
    "\nSELECT id, username, password, role, nickname\nFROM t_user WHERE username=$1 AND enabled=true"

abbrev pub session_text : String
session_text =
    "\nINSERT INTO t_user_session (username, token, remote_addr, created_at, expires_at)\nVALUES ($1,$2,$3,now(),now()+interval '12 hours')\nON CONFLICT (token) DO NOTHING"

abbrev pub agents_text : String
agents_text =
    "SELECT id, name, ip, port, status, version, created_at, updated_at FROM t_agent ORDER BY id"

abbrev pub devices_text : String
devices_text =
    "SELECT id, name, devid, ip, status, created_at, updated_at FROM t_device ORDER BY id"

abbrev pub config_text : String
config_text = "SELECT value, description, updated_at FROM t_config WHERE key=$1"

abbrev pub configs_text : String
configs_text = "SELECT key, value, description, updated_at FROM t_config ORDER BY key"

abbrev pub set_config_text : String
set_config_text =
    "\nINSERT INTO t_config (key, value, description, updated_at)\nVALUES ($1,$2::jsonb,$3,now())\nON CONFLICT (key) DO UPDATE SET value=EXCLUDED.value, description=EXCLUDED.description, updated_at=now()"

unfoldable pub statement : String → List Value → Statement
statement text args = record { text = text; args = args }

-- A list of maps as it is encoded.
unfoldable pub item_values : List Fields → Items
item_values [] = done
item_values (m ∷ rest) = item (obj m) (item_values rest)

module _ (l : Ly) where
  -- A password is compared only where the user has one and the request gives one.
  unfoldable pub denies : LyUser → String → Bool
  denies row password =
      not (row.password == "") && not (password == "") && not (row.password == password)

  unfoldable pub session_reply : LyUser → String → LyReply
  session_reply row token =
      let shown = field "id" (number (decimal row.id)) (
        field "username" (str row.username)
          (field "role" (str row.role) (field "nickname" (str row.nickname) end))) in
      ly_success (
        field "token" (str token)
          (field "data" (obj (field "token" (str token) (field "user" (obj shown) end))) end))

  unfoldable pub open_session : LyRequest → LyUser → Journal → Journal × LyReply
  open_session r row w =
      let token = append "ly-" (l.nanos w.calls) in
      (
        sent_on (statement session_text (str row.username ∷ str token ∷ str r.remote_addr ∷ [])) w,
        session_reply row token,
      )

  unfoldable pub auth_user : LyRequest → String → Journal → Result LyUser → Journal × LyReply
  auth_user r password w (err e) = (w, ly_error 401 "用户名或密码错误")
  auth_user r password w (ok row) =
      if denies row password then (w, ly_error 401 "用户名或密码错误") else open_session r row w

  unfoldable pub auth_name : Dict String → String
  auth_name params =
      first_trimmed
        (param params "username" ∷ param params "user" ∷ param params "name" ∷ "admin" ∷ [])

  unfoldable pub auth_password : Dict String → String
  auth_password params =
      first_trimmed (param params "password" ∷ param params "passwd" ∷ param params "pwd" ∷ "" ∷ [])

  unfoldable pub auth : LyRequest → Journal → Journal × LyReply
  auth r = require_db l (λ w.
      let params = read_params r in
      let q = statement user_text (str (auth_name params) ∷ []) in
      auth_user r (auth_password params) (sent_on q w) (l.query_user w.calls q))

  unfoldable pub status_reply : List Fields → List Fields → LyReply
  status_reply agents devices =
      let rows : Fields → Fields = λ rest.
        field "agents" (arr (item_values agents))
          (field "devices" (arr (item_values devices)) rest) in
      ly_success (
        rows (
          field "data"
            (obj (
              field "service" (str "traffic-go-lyserver-compat")
                (field "status" (str "running") (rows end))))
            end))

  unfoldable pub device_rows : List Fields → Journal → Journal × LyReply
  device_rows agents w = answer_with l (status_reply agents) (
      query_rows l (statement devices_text [])
        ("id" ∷ "name" ∷ "devid" ∷ "ip" ∷ "status" ∷ "created_at" ∷ "updated_at" ∷ []) w)

  unfoldable pub then_devices : Journal × Result (List Fields) → Journal × LyReply
  then_devices (w, err e) = (w, ly_error 500 e)
  then_devices (w, ok agents) = device_rows agents w

  unfoldable pub status : LyRequest → Journal → Journal × LyReply
  status r = require_db l (λ w. then_devices (
      query_rows l (statement agents_text [])
        ("id" ∷ "name" ∷ "ip" ∷ "port" ∷ "status" ∷ "version" ∷ "created_at" ∷ "updated_at" ∷ [])
        w))

  -- The map of a configuration's row, without its key.
  unfoldable pub config_reply : String → Option Fields → LyReply
  config_reply key none = ly_success (field "data" (obj end) end)
  config_reply key (some row) = ly_success (field "data" (obj (field "key" (str key) row)) end)

  unfoldable pub configs_reply : List Fields → LyReply
  configs_reply rows = ly_success (field "data" (arr (item_values rows)) end)

  unfoldable pub get_config : LyRequest → Journal → Journal × LyReply
  get_config r = require_db l (λ w.
      let key = first_trimmed (query_value r "key" ∷ query_value r "name" ∷ []) in
      let one = statement config_text (str key ∷ []) in
      let all = statement configs_text [] in
      if key == ""
      then answer_with l configs_reply (sent_on all w, l.query_items w.calls all)
      else answer_with l (config_reply key) (sent_on one w, l.query_config w.calls one))

  unfoldable pub config_value : Dict String → String
  config_value params =
      let given = param params "value" in
      let text = if given == "" then l.marshal_params params else given in
      if l.valid text then text else l.marshal_text text

  -- The reply after a statement that gives no rows.
  unfoldable pub done_with : LyReply → Journal → Option String → Journal × LyReply
  done_with reply w none = (w, reply)
  done_with reply w (some e) = (w, ly_error 500 e)

  unfoldable pub set_config : LyRequest → Journal → Journal × LyReply
  set_config r = require_db l (λ w.
      let params = read_params r in
      let key = first_trimmed (param params "key" ∷ param params "name" ∷ "default" ∷ []) in
      let desc = first_trimmed (param params "description" ∷ param params "desc" ∷ []) in
      let text = config_value params in
      let q = statement set_config_text (str key ∷ str text ∷ str desc ∷ []) in
      done_with
        (ly_success (
          field "data"
            (obj (
              field "key" (str key)
                (field "value" (l.json_value text) (field "description" (str desc) end))))
            end))
        (sent_on q w) (l.exec w.calls q))
