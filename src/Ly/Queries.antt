-- ===== src/Ly/Queries.antt =====
-- internal/lyserver/query_handlers.go: the handlers that query events and assets.
use traffic_analysis.Base.{true, ◌||◌, String, List, [], ◌∷◌, ◌==◌, if◌then◌else◌}
use traffic_analysis.Base.Text.{lower_is}
use traffic_analysis.Base.Prefix.{trim_prefix}
use traffic_analysis.Value.{Fields, str, boolean, obj, arr, end, field, at}
use traffic_analysis.Store.{Result, ok, err}
use traffic_analysis.Ly.{
  Ly, LyRequest, LyReply, Statement, Journal, first_trimmed, trimmed_text, query_value, ly_error,
  ly_success, query_rows, answer_with, require_db,
}
use traffic_analysis.Ly.Settings.{statement, item_values}
use traffic_analysis.Ly.Statements.{
  event_columns, aggregate_text, detail_text, recent_text, latest_text, like_text, related_text,
  top_text, asset_text, asset_objects_text, asset_services_text, first_row, rows_or_none,
  limit_value, event_limit, top_limit, top_kind, top_field, slashes_left, slashes_right,
  trim_suffix, has_suffix, or_itself, with_total,
}

module _ (l : Ly) where
  unfoldable pub path_tail : String → String → String
  unfolding slashes_left slashes_right or_itself
  path_tail path prefix =
      let out = slashes_right (slashes_left (trim_prefix path prefix)) in
      or_itself out (l.unescape out)

  unfoldable pub event_statement : LyRequest → Statement
  event_statement r = statement recent_text (limit_value (event_limit r) ∷ [])

  unfoldable pub list_recent : LyRequest → String → Journal → Journal × LyReply
  list_recent r kind w =
      answer_with l
        (λ rows.
          with_total
            (field "req_type" (str (l.lower kind))
              (field "data" (arr (item_values rows)) (field "events" (arr (item_values rows)) end)))
            rows)
        (query_rows l (event_statement r) event_columns w)

  unfoldable pub list_aggregates : LyRequest → String → Journal → Journal × LyReply
  list_aggregates r kind w =
      answer_with l
        (λ rows.
          with_total
            (field "req_type" (str (l.lower kind)) (field "data" (arr (item_values rows)) end))
            rows)
        (query_rows l (statement aggregate_text (limit_value (event_limit r) ∷ []))
          ("id" ∷ "aggre_key" ∷ "event_type" ∷ "event_count" ∷ "threat_source" ∷ "victim_target"
            ∷ "first_time" ∷ "last_time" ∷ "severity" ∷ "raw" ∷ [])
          w)

  unfoldable pub show_detail : LyRequest → String → Journal → Journal × LyReply
  show_detail r kind w =
      let id = first_trimmed (query_value r "event_id" ∷ query_value r "id" ∷ []) in
      if id == ""
      then (w, ly_success (field "data" (obj end) end))
      else answer_with l
          (λ rows.
            ly_success
              (field "req_type" (str (l.lower kind)) (field "data" (obj (first_row rows)) end)))
          (query_rows l (statement detail_text (str id ∷ [])) event_columns w)

  unfoldable pub event_of_kind : LyRequest → String → Journal → Journal × LyReply
  event_of_kind r kind w =
      if lower_is kind "aggre" || lower_is kind "aggregate" || lower_is kind "aggregation"
      then list_aggregates r kind w
      else if lower_is kind "detail"
      then show_detail r kind w
      else list_recent r kind w

  unfoldable pub ly_event : LyRequest → Journal → Journal × LyReply
  ly_event r = require_db l (
      event_of_kind r
        (first_trimmed (query_value r "req_type" ∷ query_value r "type" ∷ "list" ∷ [])))

  -- findEventLike: an error is the same as no row.
  unfoldable pub like_statement : String → Statement
  like_statement id =
      if id == "" then statement latest_text [] else statement like_text (str id ∷ [])

  unfoldable pub find_event_like : String → Journal → Journal × Fields
  find_event_like id w =
      let (w', result) = query_rows l (like_statement id) event_columns w in
      (w', first_row (rows_or_none result))

  unfoldable pub feature_id : LyRequest → String
  feature_id r =
      first_trimmed (query_value r "id" ∷ query_value r "flow_id" ∷ query_value r "event_id" ∷ [])

  -- A field that the item has.
  copied : String → String → Fields → Fields → Fields
  copied to from end rest = rest
  copied to from (field k v m) rest =
      let more = copied to from m rest in if k == from then field to v rest else more

  unfoldable pub feature : LyRequest → Journal → Journal × LyReply
  unfolding copied
  feature r = require_db l (λ w.
      let id = feature_id r in
      let (w', found) = find_event_like id w in
      (
        w',
        ly_success (
            field "data"
              (obj (
                field "id" (str id) (
                  field "flow_id" (str id) (
                    field "event" (obj found) (
                      field "features"
                        (obj (
                          field "source" (str "postgres_compat")
                            (field "derived" (boolean true) end)))
                        (copied "src_ip" "threat_source" found
                          (copied "dst_ip" "victim_target" found end)))))))
              end),
      ))

  unfoldable pub top_n : LyRequest → Journal → Journal × LyReply
  top_n r = require_db l (λ w.
      let name = top_field (top_kind r) in
      answer_with l
        (λ rows.
          with_total
            (field "type" (str (l.lower (top_kind r)))
              (field "field" (str name) (field "data" (arr (item_values rows)) end)))
            rows)
        (query_rows l (statement (top_text name) (limit_value (top_limit r) ∷ []))
          ("name" ∷ "count" ∷ []) w))

  evidence_of : String → Fields → List Fields
  evidence_of id end = []
  evidence_of id (field k v m) =
      let found = field k v m in
      field "id" (str (first_trimmed (trimmed_text (at found "event_id") ∷ id ∷ []))) (
        field "event_id" (at found "event_id") (
          field "type" (str "event_record") (
            field "source" (str "t_event_data")
              (field "description" (at found "rule_desc") (field "data" (obj found) end)))))
      ∷ []

  unfoldable pub evidence : LyRequest → Journal → Journal × LyReply
  unfolding evidence_of
  evidence r = require_db l (λ w.
      let (w', found) = find_event_like (feature_id r) w in
      let rows = evidence_of (feature_id r) found in
      (w', with_total (field "data" (arr (item_values rows)) end) rows))

  unfoldable pub related_reply : String → List Fields → LyReply
  related_reply flow_id rows =
      with_total (field "flow_id" (str flow_id) (field "data" (arr (item_values rows)) end)) rows

  unfoldable pub related_statement : LyRequest → Fields → Statement
  related_statement r base =
      let src = trimmed_text (at base "threat_source") in
      if src == ""
      then statement recent_text (limit_value (top_limit r) ∷ [])
      else statement related_text (str src ∷ limit_value (top_limit r) ∷ [])

  unfoldable pub ly_related_flows : LyRequest → Journal → Journal × LyReply
  unfolding trim_suffix
  ly_related_flows r = require_db l (λ w.
      let flow_id = trim_suffix (path_tail r.path "/internal/flows/") "/related" in
      let (w', base) = find_event_like flow_id w in
      answer_with l (related_reply flow_id)
        (query_rows l (related_statement r base) event_columns w'))

  unfoldable pub ly_flow : LyRequest → Journal → Journal × LyReply
  ly_flow r = require_db l (λ w.
      let flow_id = path_tail r.path "/internal/flows/" in
      let (w', found) = find_event_like flow_id w in
      let reply = ly_success (field "data" (obj found) (field "flow_id" (str flow_id) end)) in
      if has_suffix r.path "/related" then ly_related_flows r w else (w', reply))

  unfoldable pub asset_reply : String → List Fields → List Fields → List Fields → LyReply
  asset_reply ip assets objects services = ly_success (
      field "data"
        (obj (
          field "ip" (str ip) (
            field "asset" (obj (first_row assets)) (
              field "managed_objects" (arr (item_values objects))
                (field "services" (arr (item_values services)) end)))))
        end)

  -- The errors of the last two queries are dropped.
  unfoldable pub describe_asset : String → Journal × Result (List Fields) → Journal × LyReply
  describe_asset ip (w, err e) = (w, ly_error 500 e)
  describe_asset ip (w, ok assets) =
      let (w', objects) =
        query_rows l (statement asset_objects_text (str ip ∷ []))
          ("id" ∷ "moip" ∷ "moport" ∷ "protocol" ∷ "modesc" ∷ "tag" ∷ "mogroupid" ∷ "filter"
            ∷ "devid" ∷ "direction" ∷ "meta" ∷ "created_at" ∷ "updated_at" ∷ [])
          w in
      let (w'', services) =
        query_rows l (statement asset_services_text (str ip ∷ []))
          ("ip" ∷ "port" ∷ "protocol" ∷ "service_name" ∷ "meta" ∷ "created_at" ∷ "updated_at" ∷ [])
          w' in
      (w'', asset_reply ip assets (rows_or_none objects) (rows_or_none services))

  unfoldable pub ly_asset : LyRequest → Journal → Journal × LyReply
  ly_asset r = require_db l (λ w.
      let ip = path_tail r.path "/internal/assets/" in
      describe_asset ip (
        query_rows l (statement asset_text (str ip ∷ []))
          ("ip" ∷ "asset_name" ∷ "owner" ∷ "business" ∷ "meta" ∷ "created_at" ∷ "updated_at" ∷ [])
          w))

  unfoldable pub ly_pcap : LyRequest → Journal → Journal × LyReply
  ly_pcap r w = (
    w,
    ly_success (
        field "data"
          (obj (
            field "pcap_id" (str (path_tail r.path "/internal/pcaps/")) (
              field "status" (str "not_available") (
                field "message" (str "Go 兼容层已接管 PCAP 查询入口，真实 PCAP 文件生成将在后续证据链路实现。")
                  (field "download_url" (str "") end)))))
          end),
  )
