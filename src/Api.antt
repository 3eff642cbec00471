-- ===== src/Api.antt =====
-- internal/httpapi/server.go: the server's state, a request and a reply. A handler is a function of
-- the request and the server that gives the server after it and the reply.
pub mod Encode
pub mod Accounts
pub mod Events
pub mod Internal
pub mod Engineer
pub mod Modes
pub mod Hooks
pub mod Routes
pub mod Sessions
pub mod Passwords
pub mod Removed
pub mod Served
pub mod Guarded
pub mod Created
pub mod Driven
pub mod Chat
use Prim.Native.String.{◌++◌ as append}
use traffic_analysis.Base.{
  ℕ, ◌+◌, Bool, true, false, ◌||◌, ◌&&◌, String, Option, none, some, List, [], ◌∷◌, ◌==◌, ◌=ℕ◌,
  if◌then◌else◌, ◌≡◌, refl,
}
use traffic_analysis.Base.Prefix.{trim_prefix, trim_quotes}
use traffic_analysis.Dict.{Dict, get}
use traffic_analysis.Value.{Value, Fields, nil, str, at, first_non_empty}
use traffic_analysis.Domain.{
  User, Event, Message, Task, Action, Command, Execution, Summary, AuditLog,
}
use traffic_analysis.Store.{MemoryStore, Result, ok, err}
use traffic_analysis.Store.Users.{get_user}
use traffic_analysis.Store.Sync.{add_audit_log}
use traffic_analysis.Hub.{Hub, new_hub}
use traffic_analysis.Realtime.{register}
use traffic_analysis.Service.{Outside, World}
use traffic_analysis.Service.Ingest.{Ingested}
use traffic_analysis.Service.Agents.{Crew}
use traffic_analysis.Driving.{Backend, Desk}

-- r.Header.Get, r.PathValue and r.URL.Query().Get give "" for what is not there.
pub record Request : Type 0 where
  pub method : String
  pub path : String
  pub header : String → String
  pub path_value : String → String
  pub query : String → String
  pub body : String

-- What a reply carries: a `Value` where the handler writes texts of its own.
mutual
  pub data Data : Type 0 where
    nothing : Data
    value : Value → Data
    count : ℕ → Data
    instant : ℕ → Data
    user : User → Data
    users : List User → Data
    event : Event → Data
    events : List Event → Data
    message : Message → Data
    messages : List Message → Data
    tasks : List Task → Data
    actions : List Action → Data
    commands : List Command → Data
    executions : List Execution → Data
    summaries : List Summary → Data
    entries : Entries → Data

  pub data Entries : Type 0 where
    no_entries : Entries
    entry : String → Data → Entries → Entries

pub data Body : Type 0 where
  -- a map
  plain : Entries → Body
  -- domain.APIResponse: status, message, data
  response : String → String → Data → Body
  -- what ProcessLyEvent returned
  pushed : Ingested → Body
  -- nothing was written
  no_body : Body

pub record Reply : Type 0 where
  pub code : ℕ
  pub body : Body

-- The struct that login decodes.
pub record Credentials : Type 0 where
  pub username : String
  pub password : String

-- What the server takes from outside: the configuration, and what stands outside of internal/ by
-- the number of the reading. The same body is on_decoded by a Decoder and by Unmarshal.
pub record Site : Type 0 where
  pub outside : Outside
  pub crew : Crew
  pub backend : Backend
  pub internal_api_key : String
  pub store_backend : String
  pub mq_backend : String
  pub parse_time : String → Option ℕ
  -- time.Time.String
  pub time_text : ℕ → String
  pub decode_map : String → Result Fields
  pub decode_login : String → Result Credentials
  pub unmarshal : String → Option Fields
  -- the field "enabled" of the body, false where there is none
  pub decode_enabled : String → Bool
  -- json.MarshalIndent of a list
  pub marshal_indent : Data → String
  -- rows as Unmarshal reads back what the Encoder wrote
  pub rows_value : Data → Value
  pub date_time : ℕ → String
  pub random_token : ℕ → String
  -- LLM.Chat, and of LLM.HealthCheck: configured, and OK
  pub chat : ℕ → String → Result String
  pub llm_configured : ℕ → Bool
  pub llm_ok : ℕ → Bool

-- `desk` has the store of the services, the registered publisher and states["driving_mode"].
pub record Server : Type 0 where
  pub desk : Desk
  pub tokens : Dict String

-- New: the hub that it makes registers itself.
unfoldable pub new_server : World → Option Hub → Server
new_server w current = record {
  desk = record {
    stage = record { world = w; publisher = register (some new_hub) current };
    driving = false;
    calls = 0;
  };
  tokens = [];
}

abbrev pub store_of : Server → MemoryStore
store_of s = s.desk.stage.world.store

abbrev pub reading_of : Server → ℕ
reading_of s = s.desk.stage.world.readings

-- The server after a call that left this store and took so many readings.
unfoldable pub after : MemoryStore → ℕ → Server → Server
after store n s = record s {
  desk = record s.desk {
    stage = record s.desk.stage {
      world = record s.desk.stage.world {
        store = store;
        readings = s.desk.stage.world.readings + n;
      };
    };
  };
}

unfoldable pub status_text : Bool → String
status_text b = if b then "success" else "error"

unfoldable pub write_error : ℕ → String → Reply
write_error code text = record { code = code; body = response "error" text nothing }

-- writeJSON(w, http.StatusOK, domain.APIResponse{Status: "success", Message: …, Data: …})
unfoldable pub success_reply : String → Data → Reply
success_reply text data_value = record { code = 200; body = response "success" text data_value }

unfoldable pub plain_reply : ℕ → Entries → Reply
plain_reply code m = record { code = code; body = plain m }

-- asString of this package: what is no text is encoded, and quotes are cut off its ends.
unfoldable pub json_text : (Value → String) → Value → String
json_text marshal nil = ""
json_text marshal (str s) = s
json_text marshal v = trim_quotes (marshal v)

-- What decodeJSON gives, or its reply.
unfoldable pub on_decoded : {A : Type 0} → Server → Result A → (A → Server × Reply) → Server × Reply
on_decoded s (err e) next = (s, write_error 400 (append "invalid json: " e))
on_decoded s (ok a) next = next a

-- notImplemented, which no route leads to.
unfoldable pub not_implemented : String → Request → Server → Server × Reply
not_implemented text r s = (s, record { code = 202; body = response "accepted" text nothing })

module _ {A : Type 0} (s : Server) (next : A → Server × Reply) where
  pub on_decoded_ok : {r : Result A} {a : A} → r ≡ ok a → on_decoded s r next ≡ next a
  unfolding on_decoded
  on_decoded_ok e = rw (e, on_decoded) refl

  pub on_decoded_err :
      {r : Result A} {e : String}
      → r ≡ err e
      → on_decoded s r next ≡ (s, write_error 400 (append "invalid json: " e))
  unfolding on_decoded
  on_decoded_err e = rw (e, on_decoded) refl

unfoldable pub user_of : Server → Option String → Option User
user_of s none = none
user_of s (some user_id) = get_user (store_of s) user_id

module _ (x : Site) where
  unfoldable pub text_at : Fields → String → String
  unfolding json_text
  text_at body key = json_text x.outside.marshal (at body key)

  -- The user of the token that the request carries.
  unfoldable pub current_user : Request → Server → Option User
  current_user r s =
      let token = trim_prefix (r.header "Authorization") "Bearer " in
      if token == "" then none else user_of s (get s.tokens token)

  -- requireInternalKey: whether the handler goes on.
  unfoldable pub require_internal_key : Request → Bool
  require_internal_key r = x.internal_api_key == "" || r.header "X-API-Key" == x.internal_api_key

  unfoldable pub audit : Request → String → String → String → Server → Server
  audit r action target meta s =
      let n = reading_of s in
      after
        (add_audit_log (x.outside.now n)
          (record {
            id = 0;
            actor = first_non_empty (r.header "X-Actor" ∷ "deepsoc" ∷ []);
            action = action;
            target = target;
            meta = meta;
            created_at = 0;
          })
          (store_of s)).0
        1 s
