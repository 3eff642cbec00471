-- ===== src/Hub/Packets.antt =====
-- internal/socketio/hub.go: handleEnginePacket and handleSocketEvent. Decoding a packet's JSON, the
-- clock's texts and the random id are arguments.
use Prim.Native.String.{◌++◌ as append, slice, len}
use text.Mathlib.Text.{starts_with}
use traffic_analysis.Base.{
  ℕ, Bool, ◌||◌, String, Option, none, some, List, [], ◌∷◌, ◌++◌, ◌==◌, if◌then◌else◌,
}
use traffic_analysis.Base.Text.{trim_space}
use traffic_analysis.Value.{Value, Fields, str, obj, end, field, at, as_string}
use traffic_analysis.Domain.Roles.{normalize_message_from, sender_type}
use traffic_analysis.Hub.{
  Hub, Packet, pong, connected, on_object, enqueue, join_room, leave_room, broadcast,
  emit_to_session,
}

pub record Draws : Type 0 where
  -- json.Unmarshal into []json.RawMessage, and of its parts
  pub unmarshal : String → Option (List Value)
  -- the texts of the successive readings of the clock
  pub now_text : ℕ → String
  -- randomID()
  pub random_id : String

-- firstNonEmpty of hub.go, which trims.
unfoldable pub first_non_blank : List String → String
first_non_blank [] = ""
first_non_blank (v ∷ vs) = let rest = first_non_blank vs in if trim_space v == "" then rest else v

abbrev text_of : Value → String
text_of (str s) = s
text_of _ = ""

abbrev fields_of : List Value → Fields
fields_of (obj m ∷ rest) = m
fields_of _ = end

abbrev message_value : String → Value
message_value text = obj (field "message" (str text) end)

-- To the connection that the packet came by, or to the queue.
unfoldable pub answer_packet : String → Bool → Packet → Hub → Hub
answer_packet sid by_ws p h = record h {
  objects =
      on_object (λ s. if by_ws then record s { written = s.written ++ p ∷ [] } else enqueue p s) sid
        h.objects;
}

module _ (d : Draws) (sid : String) where
  invalid : Hub → Hub
  invalid h = emit_to_session sid "error" (message_value "invalid socket event") h

  on_join : Fields → Hub → Hub
  on_join fields h =
      let event_id = as_string (at fields "event_id") in
      let status = obj (field "status" (str "joined") (field "event_id" (str event_id) end)) in
      let greeting = obj (
        field "message" (str "这是一条测试消息，用于验证WebSocket连接")
          (field "timestamp" (str (d.now_text 0)) end)) in
      let announcement = obj (
        field "message" (str (append "客户端 " (append sid (append " 已加入房间 " event_id))))
          (field "timestamp" (str (d.now_text 1)) end)) in
      if event_id == ""
      then emit_to_session sid "error" (message_value "缺少event_id参数") h
      else broadcast event_id "test_message" announcement (
          emit_to_session sid "test_message" greeting
            (emit_to_session sid "status" status (join_room sid event_id h)))

  on_leave : Fields → Hub → Hub
  on_leave fields h =
      let event_id = as_string (at fields "event_id") in
      let status = obj (field "status" (str "left") (field "event_id" (str event_id) end)) in
      if event_id == "" then h else emit_to_session sid "status" status (leave_room sid event_id h)

  -- msg["temp_id"] is set where the client sent one.
  with_temp_id : String → Fields → Fields
  with_temp_id temp_id fields =
      if temp_id == "" then fields else field "temp_id" (str temp_id) fields

  chat_message : Fields → Fields
  unfolding with_temp_id
  chat_message fields =
      let sender = normalize_message_from (
        first_non_blank
          (as_string (at fields "sender") ∷ as_string (at fields "message_from") ∷ "user" ∷ [])) in
      let content = first_non_blank (
        as_string (at fields "message")
        ∷ as_string (at fields "message_content")
        ∷ as_string (at fields "content")
        ∷ []) in
      with_temp_id (as_string (at fields "temp_id")) (
        field "message_id" (str (append "ws-" d.random_id)) (
          field "event_id" (str (as_string (at fields "event_id"))) (
            field "message_from" (str sender) (
              field "message_type" (str "user_message") (
                field "sender_type" (str (sender_type sender)) (
                  field "message_content" (str content)
                    (field "created_at" (str (d.now_text 0)) end)))))))

  on_message : Fields → Hub → Hub
  unfolding chat_message
  on_message fields h =
      let event_id = as_string (at fields "event_id") in
      let content = first_non_blank (
        as_string (at fields "message")
        ∷ as_string (at fields "message_content")
        ∷ as_string (at fields "content")
        ∷ []) in
      if event_id == "" || content == ""
      then emit_to_session sid "error" (message_value "缺少必要参数") h
      else broadcast event_id "new_message" (obj (chat_message fields)) h

  test_notice : String → Value
  test_notice event_id = obj (
      field "message_id" (str (append "ws-test-" d.random_id)) (
        field "event_id" (str event_id) (
          field "message_from" (str "system") (
            field "message_type" (str "system_notification") (
              field "message_content"
                (obj (
                  field "type" (str "system_notification") (
                    field "timestamp" (str (d.now_text 1)) (
                      field "data"
                        (obj (
                          field "response_text"
                            (str (append "这是一条通过WebSocket发送的测试系统通知 (SID: " (append sid ")"))) end))
                        end))))
                (field "created_at" (str (d.now_text 2)) end))))))

  on_test_connection : Fields → Hub → Hub
  unfolding test_notice
  on_test_connection fields h =
      let event_id = as_string (at fields "event_id") in
      let answer = obj (
        field "message" (str "连接测试成功") (
          field "timestamp" (str (d.now_text 0))
            (field "request_timestamp" (at fields "timestamp") end))) in
      let h' = emit_to_session sid "test_connection_response" answer h in
      if event_id == "" then h' else broadcast event_id "new_message" (test_notice event_id) h'

  dispatch : String → Fields → Hub → Hub
  unfolding on_join on_leave on_message on_test_connection
  dispatch event fields h =
      if event == "join"
      then on_join fields h
      else if event == "leave"
      then on_leave fields h
      else if event == "message"
      then on_message fields h
      else if event == "test_connection"
      then on_test_connection fields h
      else h

  decoded : Option (List Value) → Hub → Hub
  unfolding invalid dispatch
  decoded none h = invalid h
  decoded (some []) h = invalid h
  decoded (some (v ∷ rest)) h = dispatch (text_of v) (fields_of rest) h

  unfoldable pub handle_socket_event : String → Hub → Hub
  unfolding decoded
  handle_socket_event payload h = decoded (d.unmarshal payload) h

  unfoldable pub handle_engine_packet : Bool → String → Hub → Hub
  unfolding answer_packet
  handle_engine_packet by_ws packet h =
      if packet == ""
      then h
      else if packet == "2"
      then answer_packet sid by_ws pong h
      else if packet == "3"
      then h
      else if packet == "40"
      then answer_packet sid by_ws (connected sid) h
      else if starts_with packet "42"
      then handle_socket_event (slice packet 2 (len packet)) h
      else h
