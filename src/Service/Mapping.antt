-- ===== src/Service/Mapping.antt =====
-- internal/service/event_mapping.go, and extractEventID of internal/service/services.go.
use Prim.Native.String.{◌++◌ as append, slice}
use traffic_analysis.Base.{String, List, [], ◌∷◌, ◌==◌, if◌then◌else◌}
use traffic_analysis.Value.{Value, Fields, obj, str, end, field, at, sprint, as_string}
use traffic_analysis.Domain.{Event, Ioc}
use traffic_analysis.Dict.{Dict, get, get_or}
use traffic_analysis.Service.{Outside}

-- fmt.Sprintf("%v|%v|…", …)
join_bar : List Value → String
join_bar [] = ""
join_bar (v ∷ []) = sprint v
join_bar (v ∷ v' ∷ vs) = append (sprint v) (append "|" (join_bar (v' ∷ vs)))

module _ (o : Outside) where
  unfoldable pub fingerprint : Fields → String
  unfolding join_bar
  fingerprint event = o.digest (
      join_bar (
        at event "threat_source"
        ∷ at event "victim_target"
        ∷ at event "rule_desc"
        ∷ at event "occurrence_time"
        ∷ []))

  unfoldable pub make_idempotency_key : Fields → String
  unfolding join_bar
  make_idempotency_key ev =
      let id = as_string (at ev "event_id") in
      if id == ""
      then slice
          (o.digest (
            join_bar (
              at ev "probe_id"
              ∷ at ev "analyser_id"
              ∷ at ev "threat_type"
              ∷ at ev "flow_id"
              ∷ at ev "time"
              ∷ [])))
          0 32
      else slice (o.digest id) 0 32

abbrev severity_map : Dict String
severity_map = ("极高", "high") ∷ ("高", "high") ∷ ("中", "medium") ∷ ("低", "low") ∷ []

unfoldable pub severity_of : String → String
unfolding get
severity_of level =
    let mapped = get_or "" (get severity_map level) in if mapped == "" then "medium" else mapped

abbrev pub ip_observable : String → String → Ioc
ip_observable value role = record { ioc_type = "ip"; value = value; role = role }

module _ (o : Outside) where
  unfoldable pub ly_event_to_deepsoc : Fields → Event
  ly_event_to_deepsoc ly =
      let src = as_string (at ly "threat_source") in
      let dst = as_string (at ly "victim_target") in
      let rule_desc = as_string (at ly "rule_desc") in
      let title = append rule_desc (append " (" (append (as_string (at ly "event_type")) ")")) in
      record {
        id = 0;
        event_id = as_string (at ly "event_id");
        event_name = title;
        title = title;
        message = append "SIEM告警：检测到 " (
            append src (
              append " 对 " (
                append dst (
                  append " 发起 "
                    (append rule_desc (append " 攻击，检测方式：" (as_string (at ly "method"))))))));
        context = o.marshal (
            obj (
              field "ly_id" (at ly "id") (
                field "event_type" (at ly "event_type") (
                  field "detail_type" (at ly "detail_type") (
                    field "detection_method" (at ly "method") (
                      field "occurrence_time" (at ly "occurrence_time") (
                        field "duration" (at ly "duration") (
                          field "is_active" (at ly "is_active") (
                            field "processing_status" (at ly "processing_status")
                              (field "system_ref" (str "FlowShadow") end))))))))));
        source = "FlowShadow";
        severity = severity_of (as_string (at ly "event_level"));
        category = "Network Threat";
        event_status = "pending";
        current_round = 0;
        observables = ip_observable src "source" ∷ ip_observable dst "destination" ∷ [];
        created_at = 0;
        updated_at = 0;
      }

nested_id : Value → String
nested_id (obj fields) =
    let v = as_string (at fields "event_id") in if v == "" then as_string (at fields "id") else v
nested_id _ = ""

unfoldable pub extract_event_id : Fields → String
unfolding nested_id
extract_event_id resp =
    let v = as_string (at resp "event_id") in
    let w = as_string (at resp "id") in
    if v == "" then (if w == "" then nested_id (at resp "data") else w) else v
