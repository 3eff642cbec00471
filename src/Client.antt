-- ===== src/Client.antt =====
-- internal/client: the requests that the clients of the remote systems make, and what they take
-- from the replies. Sending a request is a parameter, and so is the coding of JSON and of URLs.
pub mod Shadow
pub mod Model
use Prim.Native.Char.{code}
use Prim.Native.String.{◌++◌ as append}
use traffic_analysis.Base.{
  ℕ, Bool, true, false, not, ◌&&◌, String, Option, none, some, List, [], ◌∷◌, ◌++◌, ◌==◌, ◌=ℕ◌, leb,
  if◌then◌else◌,
}
use traffic_analysis.Base.Text.{is_empty, trim_space}
use traffic_analysis.Value.{Value, Fields}
use traffic_analysis.Domain.{Event}
use traffic_analysis.Store.{Result, ok, err}

pub record WebRequest : Type 0 where
  pub method : String
  pub url : String
  pub headers : List (String × String)
  pub body : String

pub record WebResponse : Type 0 where
  pub code : ℕ
  pub body : String

-- The texts of the choices of a model, and its error as %v prints it.
pub record Choices : Type 0 where
  pub contents : List String
  pub error : String

pub record Web : Type 0 where
  -- http.NewRequestWithContext and Client.Do
  pub send : WebRequest → Result WebResponse
  pub decode_any : String → Result Value
  pub decode_map : String → Result Fields
  pub decode_choices : String → Result Choices
  pub marshal_event : Event → String
  -- model, system text, user text, and whether the request is that of the health check
  pub marshal_chat : String → String → String → Bool → String
  pub encode_form : List (String × String) → String
  pub query_escape : String → String
  -- time.Now().UTC().Unix() in two's complement, and ten minutes before it
  pub unix_now : ℕ
  pub ten_minutes_ago : ℕ
  -- time.Parse in the two layouts, as Unix seconds
  pub parse_rfc3339 : String → Option ℕ
  pub parse_local : String → Option ℕ

is_slash : ℕ → Bool
is_slash c = c =ℕ b'/'

-- strings.TrimRight(s, "/")
unfoldable pub trim_slashes : String → String
unfolding is_slash
trim_slashes String.[] = String.[]
trim_slashes (String.◌∷◌ c s) =
    let rest = trim_slashes s in
    if is_empty rest && is_slash (code c) then String.[] else String.◌∷◌ c rest

-- Enabled of the clients: there is a base URL.
unfoldable pub is_enabled : String → Bool
is_enabled base_url = not (trim_space base_url == "")

unfoldable pub bearer : String → String × String
bearer key = ("Authorization", append "Bearer " key)

-- What is made of a reply that was decoded to a map: an error for a code of 400 or more.
unfoldable pub map_of_reply : (String → Result Fields) → String → Result WebResponse → Result Fields
map_of_reply decode failure (err e) = err e
map_of_reply decode failure (ok resp) =
    let out = decode resp.body in
    elim out [ err e ↦ err e | ok m ↦ if leb 400 resp.code then err failure else ok m ]

module _ (web : Web) (base_url api_key : String) where
  unfoldable pub create_event_headers : String → List (String × String)
  create_event_headers idempotency_key =
      ("Content-Type", "application/json") ∷ (if api_key == "" then [] else bearer api_key ∷ [])
      ++ (if idempotency_key == "" then [] else ("Idempotency-Key", idempotency_key) ∷ [])

  -- DeepSOCClient.CreateEvent
  unfoldable pub deepsoc_create_event : Event → String → Result Fields
  deepsoc_create_event payload idempotency_key =
      if is_enabled base_url
      then map_of_reply web.decode_map "deepsoc create event failed" (
          web.send (record {
            method = "POST";
            url = append (trim_slashes base_url) "/api/event/create";
            headers = create_event_headers idempotency_key;
            body = web.marshal_event payload;
          }))
      else err "deepsoc base url is empty"
