-- ===== src/Client/Shadow.antt =====
-- internal/client/flowshadow.go: the requests for events, flows and assets, and the list of maps
-- in a reply. An error leaves out the map that getJSON returns beside it.
use Prim.Native.String.{◌++◌ as append}
use traffic_analysis.Base.{
  ℕ, ◌^◌, ◌||◌, ◌&&◌, String, Option, none, some, List, [], ◌∷◌, ◌==◌, ltb, if◌then◌else◌, length,
  take,
}
use traffic_analysis.Base.Text.{trim_space}
use traffic_analysis.Base.Search.{decimal}
use traffic_analysis.Base.Numbers.{atoi}
use traffic_analysis.Dict.{get_or}
use traffic_analysis.Value.{
  Value, Fields, Items, nil, str, number, boolean, time, obj, arr, end, field, item, done, at,
}
use traffic_analysis.Store.{Result, ok, err}
use traffic_analysis.Client.{
  Web, WebRequest, WebResponse, trim_slashes, is_enabled, bearer, map_of_reply,
}

-- The elements that are maps.
unfoldable pub maps_of : Items → List Fields
maps_of done = []
maps_of (item (obj m) rest) = m ∷ maps_of rest
maps_of (item nil rest) = maps_of rest
maps_of (item (str s) rest) = maps_of rest
maps_of (item (boolean b) rest) = maps_of rest
maps_of (item (number n) rest) = maps_of rest
maps_of (item (time t s) rest) = maps_of rest
maps_of (item (arr a) rest) = maps_of rest

abbrev pub list_keys : List String
list_keys = "items" ∷ "data" ∷ "rows" ∷ "list" ∷ "result" ∷ "records" ∷ []

list_or : Value → List Fields → List Fields
list_or (arr items) rest = maps_of items
list_or nil rest = rest
list_or (str s) rest = rest
list_or (boolean b) rest = rest
list_or (number n) rest = rest
list_or (time t s) rest = rest
list_or (obj m) rest = rest

-- The list under the first key that has one, or the map itself.
unfoldable pub list_under : List String → Fields → List Fields
unfolding list_or
list_under [] m = m ∷ []
list_under (key ∷ keys) m = list_or (at m key) (list_under keys m)

unfoldable pub unwrap_list : Value → List Fields
unwrap_list (arr items) = maps_of items
unwrap_list (obj m) = list_under list_keys m
unwrap_list nil = []
unwrap_list (str s) = []
unwrap_list (boolean b) = []
unwrap_list (number n) = []
unwrap_list (time t s) = []

-- The first of the items, where the limit, an int in two's complement, is positive.
unfoldable pub limited : ℕ → List Fields → List Fields
limited limit items =
    if ltb 0 limit && ltb limit (2 ^ 63) && ltb limit (length items)
    then take limit items
    else items

module _ (web : Web) (base_url api_key : String) where
  since_of : String → Option ℕ → Option ℕ → Option ℕ → ℕ
  since_of s (some n) rfc local = n
  since_of s none (some t) local = t
  since_of s none none local = get_or web.ten_minutes_ago local

  -- An int64 in two's complement.
  unfoldable pub parse_since_to_epoch : String → ℕ
  unfolding since_of
  parse_since_to_epoch since =
      let s = trim_space since in
      if s == ""
      then web.ten_minutes_ago
      else since_of s (atoi s) (web.parse_rfc3339 s) (web.parse_local s)

  unfoldable pub key_headers : List (String × String)
  key_headers = if api_key == "" || api_key == "change-me" then [] else bearer api_key ∷ []

  accept : String × String
  accept = ("Accept", "application/json, text/plain, */*")

  list_request : ℕ → WebRequest
  unfolding accept
  list_request start = record {
    method = "POST";
    url = append (trim_slashes base_url) "/d/event";
    headers = ("Content-Type", "application/x-www-form-urlencoded") ∷ accept ∷ key_headers;
    body = web.encode_form (
        ("req_type", "aggre")
        ∷ ("starttime", decimal start)
        ∷ ("endtime", decimal web.unix_now)
        ∷ []);
  }

  listed_events : ℕ → Result WebResponse → Result (List Fields)
  listed_events limit (err e) = err e
  listed_events limit (ok resp) =
      let decoded = web.decode_any resp.body in
      elim decoded [ err e ↦ err e | ok v ↦ ok (limited limit (unwrap_list v)) ]

  -- FlowShadowClient.ListEvents
  unfoldable pub shadow_list_events : String → ℕ → Result (List Fields)
  unfolding list_request listed_events
  shadow_list_events since limit =
      if is_enabled base_url
      then listed_events limit (web.send (list_request (parse_since_to_epoch since)))
      else err "flowshadow base url is empty"

  unfoldable pub get_json : String → Result Fields
  unfolding accept
  get_json path =
      if is_enabled base_url
      then map_of_reply web.decode_map "flowshadow request failed" (
          web.send (record {
            method = "GET";
            url = append (trim_slashes base_url) path;
            headers = accept ∷ key_headers;
            body = "";
          }))
      else err "flowshadow base url is empty"

  unfoldable pub shadow_get_flow : String → Result Fields
  shadow_get_flow flow_id = get_json (append "/d/feature?id=" (web.query_escape flow_id))

  unfoldable pub shadow_related_flows : String → String → String → ℕ → Result Fields
  shadow_related_flows flow_id window rel_type limit = get_json (
      append "/d/feature?" (
        web.encode_form (
          ("flow_id", flow_id)
          ∷ ("window", window)
          ∷ ("rel_type", rel_type)
          ∷ ("limit", decimal limit)
          ∷ [])))

  unfoldable pub shadow_get_asset : String → Result Fields
  shadow_get_asset ip = get_json (append "/d/mo?op=get&moip=" (web.query_escape ip))

  unfoldable pub shadow_prepare_pcap : String → Result Fields
  shadow_prepare_pcap flow_id =
      ok (field "pcap_id" (str (append "flow-" flow_id)) (field "status" (str "prepared") end))

  unfoldable pub shadow_get_pcap : String → Result Fields
  shadow_get_pcap pcap_id =
      if is_enabled base_url
      then ok (
          field "pcap_id" (str pcap_id) (
            field "status" (str "not_downloaded") (
              field "message"
                (str
                  "请在 repository 层按 devid/time_sec/time_usec/ip/port 转换到 /d/evidence?download=true")
                end)))
      else err "flowshadow base url is empty"
