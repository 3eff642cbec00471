-- ===== src/Ly/Statements.antt =====
-- internal/lyserver/query_handlers.go: the texts of the statements that the handlers in Queries send,
-- and what they read of a request and of rows.
use Prim.Native.Char.{code}
use Prim.Native.String.{◌++◌ as append}
use traffic_analysis.Base.{
  ℕ, Bool, ◌||◌, ◌&&◌, String, Option, none, some, List, [], ◌∷◌, ◌==◌, ◌=ℕ◌, if◌then◌else◌, length,
}
use traffic_analysis.Base.Text.{is_empty, lower_is}
use traffic_analysis.Base.Search.{decimal}
use traffic_analysis.Value.{Value, Fields, number, end, field}
use traffic_analysis.Store.{Result, ok, err}
use traffic_analysis.Ly.{
  LyRequest, LyReply, first_trimmed, query_value, parse_limit, capped, ly_success,
}

unfoldable pub event_columns : List String
event_columns =
    "id" ∷ "event_id" ∷ "event_type" ∷ "detail_type" ∷ "event_level" ∷ "rule_desc" ∷ "threat_source"
    ∷ "victim_target" ∷ "method" ∷ "occurrence_time" ∷ "duration" ∷ "processing_status"
    ∷ "is_active" ∷ "raw" ∷ "created_at" ∷ "updated_at" ∷ []

abbrev pub select_events : String
select_events =
    "\nSELECT id, event_id, event_type, detail_type, event_level, rule_desc, threat_source, victim_target, method, occurrence_time, duration, processing_status, is_active, raw, created_at, updated_at\nFROM t_event_data\n"

abbrev pub aggregate_text : String
aggregate_text =
    "\nSELECT id, aggre_key, event_type, event_count, threat_source, victim_target, first_time, last_time, severity, raw\nFROM t_event_data_aggre\nORDER BY last_time DESC, id DESC\nLIMIT $1"

abbrev pub detail_text : String
detail_text =
    append select_events "WHERE event_id=$1 OR id::text=$1\nORDER BY occurrence_time DESC\nLIMIT 1"

abbrev pub recent_text : String
recent_text = append select_events "ORDER BY occurrence_time DESC, id DESC\nLIMIT $1"

abbrev pub latest_text : String
latest_text = append select_events "ORDER BY occurrence_time DESC, id DESC\nLIMIT 1"

abbrev pub like_text : String
like_text =
    append select_events
      "WHERE event_id=$1 OR id::text=$1 OR raw->>'flow_id'=$1 OR raw->>'id'=$1\nORDER BY occurrence_time DESC, id DESC\nLIMIT 1"

abbrev pub related_text : String
related_text =
    append select_events
      "WHERE threat_source=$1 OR victim_target=$1\nORDER BY occurrence_time DESC, id DESC\nLIMIT $2"

abbrev pub top_text : String → String
top_text name = append "\nSELECT " (
    append name (
      append " AS name, COUNT(*)::bigint AS count\nFROM t_event_data\nWHERE " (
        append name
          (append " <> ''\nGROUP BY " (append name "\nORDER BY count DESC, name ASC\nLIMIT $1")))))

abbrev pub asset_text : String
asset_text =
    "\nSELECT ip, asset_name, owner, business, meta, created_at, updated_at\nFROM t_asset_ip\nWHERE ip=$1\nLIMIT 1"

abbrev pub asset_objects_text : String
asset_objects_text =
    "\nSELECT id, moip, moport, protocol, modesc, tag, mogroupid, filter, devid, direction, meta, created_at, updated_at\nFROM t_mo WHERE moip=$1 ORDER BY id LIMIT 20"

abbrev pub asset_services_text : String
asset_services_text =
    "SELECT ip, port, protocol, service_name, meta, created_at, updated_at FROM t_asset_srv WHERE ip=$1 ORDER BY port LIMIT 100"

unfoldable pub first_row : List Fields → Fields
first_row [] = end
first_row (m ∷ rest) = m

unfoldable pub rows_or_none : Result (List Fields) → List Fields
rows_or_none (ok rows) = rows
rows_or_none (err e) = []

-- A limit that is passed as an argument.
unfoldable pub limit_value : ℕ → Value
limit_value n = number (decimal n)

unfoldable pub event_limit : LyRequest → ℕ
event_limit r = capped 500 (parse_limit (query_value r "limit") 100)

unfoldable pub top_limit : LyRequest → ℕ
top_limit r = capped 100 (parse_limit (query_value r "limit") 10)

unfoldable pub top_kind : LyRequest → String
top_kind r =
    first_trimmed
      (query_value r "type" ∷ query_value r "field" ∷ query_value r "by" ∷ "threat_source" ∷ [])

-- The switch on the lower case of the kind.
unfoldable pub top_field : String → String
top_field kind =
    if lower_is kind "dst"
      || lower_is kind "dest"
      || lower_is kind "destination"
      || lower_is kind "victim"
      || lower_is kind "victim_target"
    then "victim_target"
    else if lower_is kind "event" || lower_is kind "event_type" || lower_is kind "type"
    then "event_type"
    else if lower_is kind "level" || lower_is kind "event_level" || lower_is kind "severity"
    then "event_level"
    else "threat_source"

slash : ℕ → Bool
slash c = c =ℕ b'/'

unfoldable pub slashes_left : String → String
unfolding slash
slashes_left String.[] = String.[]
slashes_left (String.◌∷◌ c s) =
    let rest = slashes_left s in if slash (code c) then rest else String.◌∷◌ c s

unfoldable pub slashes_right : String → String
unfolding slash
slashes_right String.[] = String.[]
slashes_right (String.◌∷◌ c s) =
    let rest = slashes_right s in
    if is_empty rest && slash (code c) then String.[] else String.◌∷◌ c rest

ends_in : String → String → Bool
ends_in suffix String.[] = suffix == ""
ends_in suffix (String.◌∷◌ c s) = String.◌∷◌ c s == suffix || ends_in suffix s

-- strings.TrimSuffix
unfoldable pub trim_suffix : String → String → String
trim_suffix String.[] suffix = String.[]
trim_suffix (String.◌∷◌ c s) suffix =
    let rest = trim_suffix s suffix in
    if String.◌∷◌ c s == suffix then String.[] else String.◌∷◌ c rest

unfoldable pub has_suffix : String → String → Bool
unfolding ends_in
has_suffix s suffix = ends_in suffix s

unfoldable pub or_itself : String → Option String → String
or_itself s none = s
or_itself s (some t) = t

unfoldable pub with_total : Fields → List Fields → LyReply
with_total rest rows = ly_success (field "total" (number (decimal (length rows))) rest)
