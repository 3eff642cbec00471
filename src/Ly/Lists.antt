-- ===== src/Ly/Lists.antt =====
-- internal/lyserver/handlers.go: the black list, the white list and the monitored objects.
use Prim.Native.String.{◌++◌ as append}
use traffic_analysis.Base.{ℕ, Bool, true, ◌||◌, String, List, [], ◌∷◌, ◌==◌, if◌then◌else◌}
use traffic_analysis.Base.Text.{lower_is}
use traffic_analysis.Base.Search.{decimal}
use traffic_analysis.Dict.{Dict}
use traffic_analysis.Value.{Value, Fields, str, number, boolean, obj, arr, end, field}
use traffic_analysis.Store.{Result, ok, err}
use traffic_analysis.Ly.{
  Ly, LyRequest, LyReply, Journal, first_trimmed, query_value, read_params, param,
  normalize_list_type, ly_error, ly_success, sent_on, answer_with, require_db,
}
use traffic_analysis.Ly.Settings.{statement, item_values, done_with}

abbrev pub list_text : String → String
list_text table =
    append "SELECT id, value, value_type, description, enabled, created_at, updated_at FROM "
      (append table " ORDER BY id")

abbrev pub unlist_text : String → String
unlist_text table = append "DELETE FROM " (append table " WHERE value=$1")

abbrev pub enlist_text : String → String
enlist_text table = append "\nINSERT INTO " (
    append table
      " (value, value_type, description, enabled, updated_at)\nVALUES ($1,$2,$3,true,now())\nON CONFLICT (value) DO UPDATE SET value_type=EXCLUDED.value_type, description=EXCLUDED.description, enabled=true, updated_at=now()")

abbrev pub objects_text : String
objects_text =
    "SELECT id, moip, moport, protocol, pip, pport, modesc, tag, mogroupid, filter, devid, direction, meta, created_at, updated_at FROM t_mo ORDER BY id LIMIT 500"

abbrev pub object_text : String
object_text =
    "SELECT id, moip, moport, protocol, pip, pport, modesc, tag, mogroupid, filter, devid, direction, meta, created_at, updated_at FROM t_mo WHERE moip=$1 ORDER BY id LIMIT 500"

abbrev pub set_object_text : String
set_object_text =
    "\nINSERT INTO t_mo (moip, moport, protocol, modesc, tag, mogroupid, filter, devid, direction, meta, updated_at)\nVALUES ($1,$2,$3,$4,$5,1,$6,$7,$8,$9::jsonb,now())\nON CONFLICT (moip, moport, protocol) DO UPDATE SET\n  modesc=EXCLUDED.modesc,\n  tag=EXCLUDED.tag,\n  filter=EXCLUDED.filter,\n  devid=EXCLUDED.devid,\n  direction=EXCLUDED.direction,\n  meta=EXCLUDED.meta,\n  updated_at=now()\nRETURNING id"

unfoldable pub noop_reply : String → LyReply
noop_reply text =
    ly_success
      (field "data" (obj (field "noop" (boolean true) (field "message" (str text) end))) end)

module _ (l : Ly) where
  -- listBW
  unfoldable pub list_bw : String → Journal → Journal × Result (List Fields)
  list_bw table w = let q = statement (list_text table) [] in (sent_on q w, l.query_items w.calls q)

  unfoldable pub one_list_reply : String → List Fields → LyReply
  one_list_reply name items =
      ly_success (field name (arr (item_values items)) (field "data" (arr (item_values items)) end))

  unfoldable pub both_lists_reply : List Fields → List Fields → LyReply
  both_lists_reply black white =
      let lists : Fields → Fields = λ rest.
        field "blacklist" (arr (item_values black))
          (field "whitelist" (arr (item_values white)) rest) in
      ly_success (lists (field "data" (obj (lists end)) end))

  unfoldable pub then_white : Journal × Result (List Fields) → Journal × LyReply
  then_white (w, err e) = (w, ly_error 500 e)
  then_white (w, ok black) = answer_with l (both_lists_reply black) (list_bw "t_whitelist" w)

  unfoldable pub lists_of_type : String → Journal → Journal × LyReply
  lists_of_type list_type w =
      if list_type == "black"
      then answer_with l (one_list_reply "blacklist") (list_bw "t_blacklist" w)
      else if list_type == "white"
      then answer_with l (one_list_reply "whitelist") (list_bw "t_whitelist" w)
      else then_white (list_bw "t_blacklist" w)

  unfoldable pub get_bw_list : LyRequest → Journal → Journal × LyReply
  get_bw_list r = require_db l (
      lists_of_type (
        normalize_list_type (
          first_trimmed
            (query_value r "type" ∷ query_value r "list_type" ∷ query_value r "op" ∷ []))))

  unfoldable pub table_of : String → String
  table_of list_type = if list_type == "white" then "t_whitelist" else "t_blacklist"

  unfoldable pub is_removal : String → Bool
  is_removal op = lower_is op "del" || lower_is op "delete" || lower_is op "remove"

  unfoldable pub unlist : String → String → Journal → Journal × LyReply
  unlist table value w =
      let q = statement (unlist_text table) (str value ∷ []) in
      done_with l (ly_success (field "deleted" (str value) end)) (sent_on q w) (l.exec w.calls q)

  unfoldable pub enlist : String → String → Dict String → Journal → Journal × LyReply
  enlist list_type value params w =
      let desc = first_trimmed (param params "description" ∷ param params "desc" ∷ []) in
      let value_type = first_trimmed (param params "value_type" ∷ "ip" ∷ []) in
      let q =
        statement (enlist_text (table_of list_type)) (str value ∷ str value_type ∷ str desc ∷ []) in
      done_with l
        (ly_success (
          field "data"
            (obj (
              field "type" (str list_type) (
                field "value" (str value)
                  (field "value_type" (str value_type) (field "description" (str desc) end)))))
            end))
        (sent_on q w) (l.exec w.calls q)

  unfoldable pub change_list : Dict String → Journal → Journal × LyReply
  change_list params w =
      let list_type =
        normalize_list_type
          (first_trimmed (param params "type" ∷ param params "list_type" ∷ "black" ∷ [])) in
      let value = first_trimmed (
        param params "value"
        ∷ param params "ip"
        ∷ param params "domain"
        ∷ param params "target"
        ∷ []) in
      let op = first_trimmed (param params "op" ∷ param params "action" ∷ "add" ∷ []) in
      if value == ""
      then (w, noop_reply "value为空，未修改黑白名单")
      else if is_removal op
      then unlist (table_of list_type) value w
      else enlist list_type value params w

  unfoldable pub set_bw_list : LyRequest → Journal → Journal × LyReply
  set_bw_list r = require_db l (change_list (read_params r))

  -- One object as a map where it was asked for and is the only one.
  unfoldable pub object_data : String → List Fields → Value
  object_data moip (m ∷ []) = if moip == "" then arr (item_values (m ∷ [])) else obj m
  object_data moip rows = arr (item_values rows)

  unfoldable pub objects_reply : String → List Fields → LyReply
  objects_reply moip rows =
      ly_success (field "data" (object_data moip rows) (field "items" (arr (item_values rows)) end))

  unfoldable pub get_mo : LyRequest → Journal → Journal × LyReply
  get_mo r = require_db l (λ w.
      let given = query_value r "moip" in
      let moip = if given == "" then query_value r "ip" else given in
      let q =
        if moip == "" then statement objects_text [] else statement object_text (str moip ∷ []) in
      answer_with l (objects_reply moip) (sent_on q w, l.query_items w.calls q))

  unfoldable pub object_args : String → Dict String → List Value
  object_args moip params =
      str moip
      ∷ str (first_trimmed (param params "moport" ∷ param params "port" ∷ "0" ∷ []))
      ∷ str (param params "protocol")
      ∷ str (
          first_trimmed
            (param params "modesc" ∷ param params "description" ∷ param params "desc" ∷ []))
      ∷ str (param params "tag")
      ∷ str (first_trimmed (param params "filter" ∷ append "host " moip ∷ []))
      ∷ str (first_trimmed (param params "devid" ∷ "3" ∷ []))
      ∷ str (first_trimmed (param params "direction" ∷ "ALL" ∷ []))
      ∷ str (l.marshal_params params)
      ∷ []

  unfoldable pub object_reply : String → Dict String → ℕ → LyReply
  object_reply moip params id =
      let moport = first_trimmed (param params "moport" ∷ param params "port" ∷ "0" ∷ []) in
      let desc =
        first_trimmed
          (param params "modesc" ∷ param params "description" ∷ param params "desc" ∷ []) in
      ly_success (
        field "data"
          (obj (
            field "id" (number (decimal id)) (
              field "moip" (str moip) (
                field "moport" (str moport) (
                  field "protocol" (str (param params "protocol"))
                    (field "modesc" (str desc) end))))))
          end)

  unfoldable pub save_object : Dict String → Journal → Journal × LyReply
  save_object params w =
      let moip = first_trimmed (param params "moip" ∷ param params "ip" ∷ []) in
      let q = statement set_object_text (object_args moip params) in
      if moip == ""
      then (w, noop_reply "moip为空，未修改监控对象")
      else answer_with l (object_reply moip params) (sent_on q w, l.query_id w.calls q)

  unfoldable pub set_mo : LyRequest → Journal → Journal × LyReply
  set_mo r = require_db l (save_object (read_params r))
