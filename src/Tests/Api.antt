-- ===== src/Tests/Api.antt =====
-- Requests to a server with a concrete environment.
use traffic_analysis.Base.{
  ◌+◌, true, false, String, none, some, [], ◌∷◌, ◌==◌, if◌then◌else◌, ◌≡◌, ◌≢◌, ◌⊎◌, refl, arith,
  eq_iff,
}
use traffic_analysis.Base.Prefix.{trim_prefix}
use traffic_analysis.Dict.{get, put}
use traffic_analysis.Value.{Fields, str, nil, field, end, at, first_non_empty}
use traffic_analysis.Domain.{User}
use traffic_analysis.Store.{Result, ok, new_memory_store, admin}
use traffic_analysis.Store.Users.{get_user, get_user_by_username}
use traffic_analysis.Store.Users.Laws.{IsIndexed, new_memory_store-IsIndexed}
use traffic_analysis.Api.{
  Request, Credentials, Site, Server, new_server, store_of, reading_of, current_user, user_of,
  write_error, text_at, json_text,
}
use traffic_analysis.Api.Accounts.{
  login, refuses, login_reply, change_password, handle_delete_user, me,
}
use traffic_analysis.Api.Sessions.{login-current_user}
use traffic_analysis.Api.Passwords.{login-guarded, change_password-login, password}
use traffic_analysis.Api.Removed.{handle_delete_user-logged_out}
use traffic_analysis.Tests.{outside, world}
use traffic_analysis.Tests.Agents.{crew}
use traffic_analysis.Tests.Driving.{memory}

-- A body that says its own text.
abbrev pub body_of : String → Fields
body_of text =
    field "message" (str text) (field "event_id" (str "e1") (field "new_password" (str text) end))

abbrev sign_in : String → Result Credentials
sign_in text = ok (record { username = "admin"; password = text })

abbrev pub site : Site
site = record {
  outside = outside;
  crew = crew;
  backend = memory;
  internal_api_key = "key";
  store_backend = "memory";
  mq_backend = "memory";
  parse_time = λ text. none;
  time_text = λ t. "";
  decode_map = λ text. ok (body_of text);
  decode_login = sign_in;
  unmarshal = λ text. some (body_of text);
  decode_enabled = λ text. false;
  marshal_indent = λ d. "[]";
  rows_value = λ d. nil;
  date_time = λ t. "";
  random_token = λ n. "token";
  chat = λ n prompt. ok "answer";
  llm_configured = λ n. true;
  llm_ok = λ n. true;
}

abbrev no_text : String → String
no_text key = ""

-- A request with a token, an event or a user in its path, and a body.
abbrev pub request : String → String → String → Request
request authorization value body = record {
  method = "POST";
  path = "/api/event/create";
  header = λ key. if key == "Authorization" then authorization else "";
  path_value = λ key. value;
  query = no_text;
  body = body;
}

abbrev pub server : Server
server = new_server world none

-- The administrator is signed in.
abbrev signed_in : Server
signed_in = record server { tokens = ("token", "admin") ∷ [] }

abbrev pub token : String
token = "token"

token-ne-empty : token ≢ ""
token-ne-empty = ground (arith, eq_iff token "")

admin_found : get_user_by_username (store_of server) "admin" ≡ some (admin 1)
unfolding get_user_by_username get new_server new_memory_store admin put
admin_found = refl

admin_allowed : refuses site (record { username = "admin"; password = "admin" }) (admin 1) ≡ false
unfolding refuses admin
admin_allowed = refl

server-IsIndexed : IsIndexed (store_of server)
unfolding new_server
server-IsIndexed = new_memory_store-IsIndexed 1

login-current_user_example :
    ((login site (request "" "" "admin") server).1 ≡ login_reply site "token" (admin 1))
    × (u' : User) × (current_user site
          (request "Bearer token" "" "")
          (login site (request "" "" "admin") server).0
        ≡ some u')
    × (u'.user_id ≡ (admin 1).user_id)
    × (u'.username ≡ "admin")
    × (u'.last_login_at ≡ some (outside.now (reading_of server + 1)))
login-current_user_example =
    login-current_user site (request "" "" "admin") server refl admin_found server-IsIndexed
      admin_allowed token-ne-empty (request "Bearer token" "" "") refl

login-guarded_example :
    ((login site (request "" "" "admin") server).1.code ≡ 200
      → (req : Credentials) × (u : User) × (site.decode_login "admin" ≡ ok req)
        × (get_user_by_username (store_of server) req.username ≡ some u)
        × (u.is_active ≡ true)
        × ((u.password ≡ "") ⊎ (req.password ≡ u.password)))
    × ((login site (request "" "" "admin") server).1.code ≢ 200
        → (login site (request "" "" "admin") server).0 ≡ server)
login-guarded_example = login-guarded site (request "" "" "admin") server

signed_in-IsIndexed : IsIndexed (store_of signed_in)
unfolding new_server
signed_in-IsIndexed = new_memory_store-IsIndexed 1

signed_in_user : current_user site (request "Bearer token" "" "p2") signed_in ≡ some (admin 1)
unfolding current_user user_of get_user get put new_server new_memory_store admin trim_prefix
signed_in_user = refl

new_password-ne-empty :
    password site (request "Bearer token" "" "p2") signed_in signed_in-IsIndexed signed_in_user refl
    ≢ ""
unfolding text_at json_text at first_non_empty
new_password-ne-empty = ground (arith, eq_iff "p2" "")

admin_active : (admin 1).is_active ≡ true
unfolding admin
admin_active = refl

admin_named : "admin" ≡ (admin 1).username
unfolding admin
admin_named = refl

change_password-login_example :
    (login site
      (request "" "" "p2")
      (change_password site (request "Bearer token" "" "p2") signed_in).0).1.code
    ≡ (if "p2"
          == password site
              (request "Bearer token" "" "p2")
              signed_in
              signed_in-IsIndexed
              signed_in_user
              refl
        then 200
        else 401)
change_password-login_example =
    change_password-login site (request "Bearer token" "" "p2") signed_in signed_in-IsIndexed
      signed_in_user refl admin_active new_password-ne-empty (request "" "" "p2")
      (record { username = "admin"; password = "p2" }) refl admin_named

admin_there : get_user (store_of signed_in) "admin" ≡ some (admin 1)
unfolding get_user get put new_server new_memory_store admin
admin_there = refl

admin_token : get signed_in.tokens "token" ≡ some "admin"
unfolding get
admin_token = refl

handle_delete_user-logged_out_example :
    (let s' = (handle_delete_user site (request "" "admin" "") signed_in).0 in
      ((handle_delete_user site (request "" "admin" "") signed_in).1.code ≡ 200)
      × (current_user site (request "Bearer token" "" "") s' ≡ none)
      × (me site (request "Bearer token" "" "") s' ≡ (s', write_error 401 "UNAUTHORIZED"))
      × (change_password site (request "Bearer token" "" "") s'
          ≡ (s', write_error 401 "UNAUTHORIZED")))
handle_delete_user-logged_out_example =
    handle_delete_user-logged_out site (request "" "admin" "") signed_in admin_there
      (request "Bearer token" "" "") token token-ne-empty refl admin_token
