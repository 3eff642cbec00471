-- ===== src/Api/Encode.antt =====
-- internal/domain/models.go and internal/httpapi/server.go: the JSON of a reply, as a hook reads it
-- back with Unmarshal.
use traffic_analysis.Base.{ℕ, Bool, Option, none, some, String, List, [], ◌∷◌, ◌==◌, if◌then◌else◌}
use traffic_analysis.Base.Search.{decimal}
use traffic_analysis.Value.{
  Value, Fields, Items, nil, str, boolean, number, obj, arr, end, field, done, item,
}
use traffic_analysis.Domain.{User, Ioc, Event, Message}
use traffic_analysis.Service.Ingest.{Ingested, duplicate, success}
use traffic_analysis.Api.{
  Data, Entries, Body, Site, nothing, value, count, instant, user, users, event, events, message,
  messages, tasks, actions, commands, executions, summaries, entries, no_entries, entry, plain,
  response, pushed, no_body,
}

-- A text with `omitempty`.
unfoldable pub unless_empty : String → String → Fields → Fields
unless_empty key text rest = if text == "" then rest else field key (str text) rest

abbrev ioc_value : Ioc → Value
ioc_value c =
    obj
      (field "type" (str c.ioc_type) (field "value" (str c.value) (unless_empty "role" c.role end)))

abbrev ioc_items : List Ioc → Items
ioc_items [] = done
ioc_items (c ∷ cs) = item (ioc_value c) (ioc_items cs)

observables_field : List Ioc → Fields → Fields
observables_field [] rest = rest
observables_field (c ∷ cs) rest = field "observables" (arr (ioc_items (c ∷ cs))) rest

last_login_field : (ℕ → String) → Option ℕ → Fields → Fields
last_login_field format none rest = rest
last_login_field format (some t) rest = field "last_login_at" (str (format t)) rest

module _ (format : ℕ → String) where
  -- The password is never written.
  unfoldable pub user_fields : User → Fields
  unfolding unless_empty last_login_field
  user_fields u =
      let dates =
        field "created_at" (str (format u.created_at))
          (field "updated_at" (str (format u.updated_at)) end) in
      let state =
        field "role" (str u.role) (
          field "is_active" (boolean u.is_active)
            (last_login_field format u.last_login_at dates)) in
      field "id" (number (decimal u.id)) (
        field "user_id" (str u.user_id) (
          field "username" (str u.username) (
            unless_empty "nickname" u.nickname
              (unless_empty "email" u.email (unless_empty "phone" u.phone state)))))

  unfoldable pub event_fields : Event → Fields
  unfolding unless_empty observables_field
  event_fields e =
      let dates =
        field "created_at" (str (format e.created_at))
          (field "updated_at" (str (format e.updated_at)) end) in
      let state = field "event_status" (str e.event_status) (
        field "current_round" (number (decimal e.current_round))
          (observables_field e.observables dates)) in
      let texts = field "message" (str e.message) (
        unless_empty "context" e.context (
          unless_empty "source" e.source
            (field "severity" (str e.severity) (unless_empty "category" e.category state)))) in
      field "id" (number (decimal e.id)) (
        field "event_id" (str e.event_id)
          (unless_empty "event_name" e.event_name (unless_empty "title" e.title texts)))

  unfoldable pub message_fields : Message → Fields
  unfolding unless_empty
  message_fields m =
      let kind = unless_empty "message_category" m.message_category (
        unless_empty "sender_type" m.sender_type (
          unless_empty "chat_session_id" m.chat_session_id
            (field "created_at" (str (format m.created_at)) end))) in
      let texts = field "message_from" (str m.message_from) (
        field "message_type" (str m.message_type) (
          field "message_content" (str m.message_content)
            (field "round_id" (number (decimal m.round_id)) kind))) in
      field "id" (number (decimal m.id)) (
        field "message_id" (str m.message_id) (
          field "event_id" (str m.event_id) (
            unless_empty "user_id" m.user_id (unless_empty "user_nickname" m.user_nickname texts))))

unfoldable pub upstream_field : Option Fields → Fields
upstream_field none = end
upstream_field (some m) = field "upstream" (obj m) end

unfoldable pub pushed_fields : Ingested → Fields
unfolding upstream_field
pushed_fields (duplicate fp ly_id id) = field "skipped" (boolean Bool.true) (
    field "reason" (str "duplicate") (
      field "fingerprint" (str fp)
        (field "ly_id" (str ly_id) (field "deepsoc_event_id" (str id) end))))
pushed_fields (success fp ly_id id upstream) = field "success" (boolean Bool.true) (
    field "fingerprint" (str fp) (
      field "ly_event_id" (str ly_id)
        (field "deepsoc_event_id" (str id) (upstream_field upstream))))

module _ (x : Site) where
  unfoldable mutual
    unfolding user_fields event_fields message_fields

    pub data_value : Data → Value
    data_value nothing = nil
    data_value (value v) = v
    data_value (count n) = number (decimal n)
    data_value (instant t) = str (x.outside.format t)
    data_value (user u) = obj (user_fields x.outside.format u)
    data_value (users l) = x.rows_value (users l)
    data_value (event e) = obj (event_fields x.outside.format e)
    data_value (events l) = x.rows_value (events l)
    data_value (message m) = obj (message_fields x.outside.format m)
    data_value (messages l) = x.rows_value (messages l)
    data_value (tasks l) = x.rows_value (tasks l)
    data_value (actions l) = x.rows_value (actions l)
    data_value (commands l) = x.rows_value (commands l)
    data_value (executions l) = x.rows_value (executions l)
    data_value (summaries l) = x.rows_value (summaries l)
    data_value (entries m) = obj (entries_fields m)

    pub entries_fields : Entries → Fields
    entries_fields no_entries = end
    entries_fields (entry key d m) = field key (data_value d) (entries_fields m)

  -- The field "data", with `omitempty`.
  unfoldable pub data_field : Data → Fields
  unfolding data_value
  data_field nothing = end
  data_field d = field "data" (data_value d) end

  -- Unmarshal of the body that was written, into a map.
  unfoldable pub body_fields : Body → Option Fields
  unfolding data_field unless_empty pushed_fields entries_fields
  body_fields (plain m) = some (entries_fields m)
  body_fields (response status text d) =
      some (unless_empty "status" status (unless_empty "message" text (data_field d)))
  body_fields (pushed res) = some (pushed_fields res)
  body_fields no_body = none
