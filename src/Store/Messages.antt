-- ===== src/Store/Messages.antt =====
-- internal/store/memory.go: the methods on messages.
pub mod Laws
use traffic_analysis.Base.{
  ℕ, Bool, not, String, Option, none, some, List, map, inc64, less64, keep_if,
}
use traffic_analysis.Base.Sort.{sort_by}
use traffic_analysis.Dict.{get}
use traffic_analysis.Domain.{Message}
use traffic_analysis.Domain.Roles.{normalize_message, is_internal_message}
use traffic_analysis.Store.{MemoryStore, Result, ok, err, default_text, default_number}
use traffic_analysis.Store.Rows.{rows_of, append_row}

unfoldable pub added_message : ℕ → String → ℕ → Message → Message
added_message now fresh seq m = normalize_message (record m {
  id = seq;
  message_id = default_text m.message_id fresh;
  created_at = default_number m.created_at now;
  round_id = default_number m.round_id 1;
})

unfoldable pub add_message : ℕ → String → Message → MemoryStore → MemoryStore × Result Message
add_message now fresh m s = elim (get s.events m.event_id) [
  | none ↦ (s, err "event not found")
  | some e ↦
      let m' = added_message now fresh (inc64 s.message_seq) m in
      (
        record s {
          message_seq = inc64 s.message_seq;
          messages_by_event = append_row s.messages_by_event m'.event_id m';
        },
        ok m',
      )
]

unfoldable pub message_before : Message → Message → Bool
message_before a b = less64 a.id b.id

unfoldable pub list_messages : String → MemoryStore → List Message
list_messages event_id s =
    let out = sort_by message_before (rows_of s.messages_by_event event_id) in
    keep_if (λ m. not (is_internal_message m)) (map normalize_message out)
