-- ===== src/Api/Modes.antt =====
-- internal/httpapi/driving_mode_hooks.go and internal/httpapi/server.go: the handlers of driving
-- mode and of the prompts.
use Prim.Native.String.{◌++◌ as append}
use traffic_analysis.Base.{Bool, false, String, Option, none, some, [], ◌∷◌}
use traffic_analysis.Dict.{Dict}
use traffic_analysis.Value.{Fields, str, boolean, obj, end, field}
use traffic_analysis.Store.{Result, ok, err}
use traffic_analysis.Driving.{Desk, get_driving_mode, set_driving_mode}
use traffic_analysis.Service.Prompts.{default_prompts, default_prompt}
use traffic_analysis.Api.{
  Request, Reply, Site, Server, value, entries, no_entries, entry, write_error, success_reply,
  plain_reply,
}

unfoldable pub enabled_reply : Bool → Reply
enabled_reply enabled = plain_reply 200 (
    entry "status" (value (str "success"))
      (entry "data" (entries (entry "enabled" (value (boolean enabled)) no_entries)) no_entries))

unfoldable pub mode_reply : Server → Desk × Result Bool → Server × Reply
mode_reply s (desk, ok enabled) = (record s { desk = desk }, enabled_reply enabled)
mode_reply s (desk, err e) = (record s { desk = desk }, write_error 500 e)

unfoldable pub set_reply : Bool → Server → Desk × Option String → Server × Reply
set_reply enabled s (desk, none) = (record s { desk = desk }, enabled_reply enabled)
set_reply enabled s (desk, some e) = (record s { desk = desk }, write_error 500 e)

module _ (x : Site) where
  unfoldable pub driving_mode_get_compat : Request → Server → Server × Reply
  driving_mode_get_compat r s = mode_reply s (get_driving_mode x.backend s.desk)

  -- A body that does not decode is one without the field.
  unfoldable pub driving_mode_put : Request → Server → Server × Reply
  driving_mode_put r s =
      let enabled = x.decode_enabled r.body in
      set_reply enabled s (set_driving_mode x.backend enabled s.desk)

-- drivingModeGet, which no route leads to.
unfoldable pub driving_mode_get : Request → Server → Server × Reply
driving_mode_get r s = (s, success_reply "" (value (obj (field "enabled" (boolean false) end))))

abbrev prompt_fields : Dict String → Fields
prompt_fields [] = end
prompt_fields ((key, text) ∷ rest) = field key (str text) (prompt_fields rest)

unfoldable pub prompt_list : Request → Server → Server × Reply
prompt_list r s = (s, success_reply "" (value (obj (prompt_fields default_prompts))))

unfoldable pub prompt_get : Request → Server → Server × Reply
prompt_get r s =
    let role = r.path_value "role" in
    (
      s,
      success_reply ""
          (value (obj (field "role" (str role) (field "prompt" (str (default_prompt role)) end)))),
    )

unfoldable pub prompt_background_get : Request → Server → Server × Reply
prompt_background_get r s =
    let name = r.path_value "name" in
    (
      s,
      success_reply "" (
          value (
            obj (
              field "name" (str name)
                (field "content" (str (default_prompt (append "background_" name))) end)))),
    )
