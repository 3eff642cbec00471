-- ===== src/Driving.antt =====
-- internal/httpapi/driving_mode_hooks.go: driving mode, and the workflow that is run after a
-- request that created an event. The database's row of the mode and the decoding of bodies are
-- arguments.
pub mod Laws
pub mod Calls
use traffic_analysis.Base.{
  ℕ, ◌+◌, Bool, true, false, not, ◌&&◌, ◌||◌, String, Option, none, some, List, [], ◌∷◌, ◌==◌, leb,
  ltb, if◌then◌else◌,
}
use traffic_analysis.Base.Text.{trim_space, lower_is}
use traffic_analysis.Value.{Value, Fields, str, boolean, obj, end, field, at}
use traffic_analysis.Store.{Result, ok, err}
use traffic_analysis.Service.{Outside}
use traffic_analysis.Service.Agents.{Crew, Stage}
use traffic_analysis.Service.Agents.Workflow.{run_agent_workflow}

text_or_empty : Value → String
text_or_empty (str s) = s
text_or_empty _ = ""

-- firstString
unfoldable pub first_string : Fields → List String → String
unfolding text_or_empty
first_string m [] = ""
first_string m (key ∷ keys) =
    let rest = first_string m keys in
    let v = text_or_empty (at m key) in if v == "" then rest else v

abbrev pub id_keys : List String
id_keys =
    "event_id" ∷ "eventId" ∷ "eventID" ∷ "deepsoc_event_id" ∷ "deepSOCEventID" ∷ "deepSocEventID"
    ∷ "id" ∷ []

-- drivingEventFromMap: the id of a map, or that of the map under "upstream". The title that it
-- gives too is used by no caller.
unfoldable mutual
  unfolding first_string

  pub event_in : Value → String
  event_in (obj m) =
      let id = first_string m id_keys in
      let upstream_id = event_upstream m in if id == "" then upstream_id else id
  event_in _ = ""

  pub event_upstream : Fields → String
  event_upstream end = ""
  event_upstream (field k v m) =
      let id = event_in v in let rest = event_upstream m in if k == "upstream" then id else rest

-- A text that stands for a Boolean.
unfoldable pub flag_of_text : String → Option Bool
flag_of_text text =
    let s = trim_space text in
    if lower_is s "1" || lower_is s "true" || lower_is s "yes" || lower_is s "y" || lower_is s "on"
    then some true
    else if lower_is s "0"
        || lower_is s "false"
        || lower_is s "no"
        || lower_is s "n"
        || lower_is s "off"
    then some false
    else none

flag_of : Value → Option Bool
unfolding flag_of_text
flag_of (boolean b) = some b
flag_of (str s) = flag_of_text s
flag_of _ = none

or_flag : Option Bool → Option Bool → Option Bool
or_flag (some b) rest = some b
or_flag none rest = rest

-- boolRequestValue
unfoldable pub bool_request_value : Fields → List String → Option Bool
unfolding flag_of or_flag
bool_request_value m [] = none
bool_request_value m (key ∷ keys) = or_flag (flag_of (at m key)) (bool_request_value m keys)

abbrev flag_keys : List String
flag_keys =
    "auto_driving" ∷ "autoDriving" ∷ "driving_mode" ∷ "drivingMode" ∷ "autopilot" ∷ "ai_analysis"
    ∷ "aiAnalysis" ∷ []

by_path : String → Option Bool → Bool
by_path path (some b) = b
by_path path none = path == "/api/event/create" || path == "/internal/event/push"

-- The map that a body decodes to; none for a blank body and for one that is no map.
abbrev pub fields_or_end : Option Fields → Fields
fields_or_end (some m) = m
fields_or_end none = end

unfoldable pub should_auto_drive_created_event : String → Option Fields → Bool
unfolding by_path
should_auto_drive_created_event path body =
    by_path path (bool_request_value (fields_or_end body) flag_keys)

-- drivingEventFromResponse
in_data : Fields → Value → String
unfolding event_in
in_data m (obj data_fields) = event_in (obj data_fields)
in_data m _ = event_in (obj m)

unfoldable pub driving_event_from_response : Option Fields → String
unfolding in_data
driving_event_from_response none = ""
driving_event_from_response (some m) = in_data m (at m "data")

-- drivingEventFromBytes
unfoldable pub driving_event_from_bytes : Option Fields → String
unfolding event_in
driving_event_from_bytes none = ""
driving_event_from_bytes (some m) = event_in (obj m)

-- The configuration, and the answers of the database by the number of the call.
pub record Backend : Type 0 where
  pub has_database : Bool
  pub is_postgres : Bool
  pub read : ℕ → Result Bool
  pub write : ℕ → Bool → Option String

pub record Desk : Type 0 where
  pub stage : Stage
  pub driving : Bool
  pub calls : ℕ

module _ (b : Backend) where
  read_mode : Result Bool → Desk → Desk × Result Bool
  read_mode (ok enabled) desk = (record desk { driving = enabled }, ok enabled)
  read_mode (err e) desk = (desk, if b.is_postgres then err e else ok desk.driving)

  unfoldable pub get_driving_mode : Desk → Desk × Result Bool
  unfolding read_mode
  get_driving_mode desk =
      if b.has_database
      then read_mode (b.read desk.calls) (record desk { calls = desk.calls + 1 })
      else (desk, ok desk.driving)

  unfoldable pub set_driving_mode : Bool → Desk → Desk × Option String
  set_driving_mode enabled desk =
      let set : Desk = record desk { driving = enabled } in
      if b.has_database
      then (
        record set { calls = desk.calls + 1 },
        if b.is_postgres then b.write desk.calls enabled else none,
      )
      else (set, none)

  module _ (o : Outside) (c : Crew) where
    -- The error of the workflow is logged.
    unfoldable pub drive : String → Desk → Desk
    drive event_id desk = record desk { stage = (run_agent_workflow o c event_id desk.stage).0 }

    unfoldable pub on_mode : Bool → String → Desk × Result Bool → Desk
    unfolding drive
    on_mode force event_id (desk, err e) = desk
    on_mode force event_id (desk, ok enabled) =
        if enabled || force
        then drive event_id (if force && not enabled then (set_driving_mode true desk).0 else desk)
        else desk

    abbrev pub created_event_id : Option Fields → Option Fields → String
    created_event_id request response =
        let id = driving_event_from_response response in
        if id == "" then driving_event_from_bytes request else id

    -- withDrivingModeAutomation after the handler has answered with this code and response.
    unfoldable pub automate : String → Option Fields → ℕ → Option Fields → Desk → Desk
    unfolding on_mode
    automate path request code response desk =
        let id = created_event_id request response in
        if leb 200 code && ltb code 300 && not (id == "")
        then on_mode (should_auto_drive_created_event path request) id (get_driving_mode desk)
        else desk
