-- ===== src/Api/Internal.antt =====
-- internal/httpapi/server.go: health, version and the handlers of /internal.
use traffic_analysis.Base.{true, not, ◌||◌, String, [], ◌∷◌, if◌then◌else◌}
use traffic_analysis.Value.{str, boolean, number, obj, arr, end, field, item, done, first_non_empty}
use traffic_analysis.Store.{Result, ok, err}
use traffic_analysis.Service.{World}
use traffic_analysis.Service.Ingest.{Ingested, process_ly_event}
use traffic_analysis.Api.{
  Request, Data, Entries, Reply, Site, Server, value, nothing, entries, no_entries, entry, pushed,
  response, store_of, reading_of, after, write_error, success_reply, plain_reply, status_text,
  on_decoded, require_internal_key,
}
use traffic_analysis.Api.Events.{in_world}

abbrev text : String → String → Entries → Entries
text key t rest = entry key (value (str t)) rest

module _ (x : Site) where
  unfoldable pub health : Request → Server → Server × Reply
  health r s = (
    s,
    plain_reply 200 (
        entry "ok" (value (boolean true)) (
          text "status" "ok" (
            text "service" "traffic-go"
              (text "store_backend" x.store_backend (text "mq_backend" x.mq_backend no_entries))))),
  )

  -- Of the data, whether the model is configured and whether it answered.
  unfoldable pub llm_health : Request → Server → Server × Reply
  llm_health r s =
      let n = reading_of s in
      (
        after (store_of s) 1 s,
        record {
          code = if not (x.llm_configured n) || not (x.llm_ok n) then 503 else 200;
          body = response (status_text (x.llm_ok n)) "" (
              entries (
                entry "configured" (value (boolean (x.llm_configured n)))
                  (entry "ok" (value (boolean (x.llm_ok n))) no_entries)));
        },
      )

  unfoldable pub pushed_reply : Server → World × Result Ingested → Server × Reply
  pushed_reply s (w, ok res) = (in_world w s, record { code = 200; body = pushed res })
  pushed_reply s (w, err e) = (in_world w s, write_error 500 e)

  unfoldable pub internal_event_push : Request → Server → Server × Reply
  internal_event_push r s =
      if require_internal_key x r
      then on_decoded s (x.decode_map r.body)
          (λ ly. pushed_reply s (process_ly_event x.outside ly s.desk.stage.world))
      else (s, write_error 401 "UNAUTHORIZED")

unfoldable pub version : Request → Server → Server × Reply
version r s =
    (s, plain_reply 200 (text "version" "0.3.0-db-mq" (text "name" "traffic-go" no_entries)))

-- {"status": "success", "result": "ok", "data": …}
unfoldable pub compat_reply : Data → Reply
compat_reply d =
    plain_reply 200 (text "status" "success" (text "result" "ok" (entry "data" d no_entries)))

-- No synchronisation is run.
unfoldable pub internal_sync_run : Request → Server → Server × Reply
internal_sync_run r s = (
  s,
  compat_reply (
      entries (
        text "mode" "local-postgres" (
          entry "fetched" (value (number "1")) (
            entry "pushed" (value (number "0")) (
              entry "failed" (value (number "0"))
                (text "message" "local compatibility sync completed" no_entries)))))),
)

-- Nothing is reset.
unfoldable pub internal_dedup_reset : Request → Server → Server × Reply
internal_dedup_reset r s = (
  s,
  compat_reply (
      entries (
        entry "reset" (value (boolean true))
          (text "message" "dedup reset compatibility completed" no_entries))),
)

unfoldable pub path_or : Request → String → String → String
path_or r key other = first_non_empty (r.path_value key ∷ other ∷ [])

unfoldable pub internal_get_flow : Request → Server → Server × Reply
internal_get_flow r s = (
  s,
  compat_reply (
      entries (
        text "flow_id" (path_or r "flow_id" "compat-flow-001") (
          text "event_id" "compat-event-ly-001" (
            text "event_type" "Network Threat" (
              text "threat_source" "66.240.205.34"
                (text "victim_target" "172.16.20.20" (text "source" "postgres" no_entries))))))),
)

unfoldable pub internal_related_flows : Request → Server → Server × Reply
internal_related_flows r s = (
  s,
  compat_reply (
      value (
        arr (
          item
            (obj (
              field "flow_id" (str (path_or r "flow_id" "compat-flow-001")) (
                field "event_id" (str "compat-event-ly-001") (
                  field "relation" (str "same_target") (
                    field "event_type" (str "Network Threat") (
                      field "threat_source" (str "66.240.205.34") (
                        field "victim_target" (str "172.16.20.20")
                          (field "source" (str "postgres") end))))))))
            done))),
)

unfoldable pub internal_asset : Request → Server → Server × Reply
internal_asset r s = (
  s,
  compat_reply (
      entries (
        text "ip" (path_or r "ip" "172.16.20.20") (
          text "asset_type" "server" (
            text "description" "PostgreSQL ly_server compatibility asset"
              (text "source" "postgres" no_entries))))),
)

unfoldable pub internal_prepare_pcap : Request → Server → Server × Reply
internal_prepare_pcap r s = (
  s,
  compat_reply (
      entries (
        text "flow_id" (path_or r "flow_id" "compat-flow-001") (
          text "pcap_id" "compat-pcap-001" (
            text "status" "ready" (
              text "download_url" "" (
                text "source" "postgres"
                  (text "message" "pcap prepare compatibility response" no_entries))))))),
)

unfoldable pub internal_get_pcap : Request → Server → Server × Reply
internal_get_pcap r s = (
  s,
  compat_reply (
      entries (
        text "pcap_id" (path_or r "pcap_id" "compat-pcap-001") (
          text "status" "ready" (
            text "download_url" "" (
              text "source" "postgres"
                (text "message" "pcap metadata compatibility response" no_entries)))))),
)

-- ok, the handler of what is accepted and has no effect.
unfoldable pub ok_handler : Request → Server → Server × Reply
ok_handler r s = (s, success_reply "" nothing)
