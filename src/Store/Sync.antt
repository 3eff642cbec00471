-- ===== src/Store/Sync.antt =====
-- internal/store/memory.go: fingerprints, cursors, pushed events and the audit log.
use traffic_analysis.Base.{ℕ, Bool, true, false, String, Option, none, some, [], ◌∷◌, ◌++◌, inc64}
use traffic_analysis.Dict.{get, put, get_or, is_some}
use traffic_analysis.Domain.{EventMap, SyncCursor, PushedEvent, AuditLog}
use traffic_analysis.Store.{MemoryStore, default_number}

-- The row that a reservation stores.
unfoldable pub reserved : ℕ → String → EventMap
reserved now fp = record {
  fingerprint = fp;
  ly_event_id = "";
  deepsoc_event_id = "";
  created_at = now;
}

unfoldable pub reserve_fingerprint : ℕ → String → MemoryStore → MemoryStore × Bool
reserve_fingerprint now fp s = elim (get s.event_maps fp) [
  | some row ↦ (s, false)
  | none ↦ (record s { event_maps = put s.event_maps fp (reserved now fp) }, true)
]

-- The zero value that a missing key reads as.
abbrev pub no_event_map : EventMap
no_event_map = record { fingerprint = ""; ly_event_id = ""; deepsoc_event_id = ""; created_at = 0 }

-- The row that a binding makes of the one that is there.
unfoldable pub bound : ℕ → String → String → String → EventMap → EventMap
bound now fp ly_id deepsoc_id row = record row {
  fingerprint = fp;
  ly_event_id = ly_id;
  deepsoc_event_id = deepsoc_id;
  created_at = default_number row.created_at now;
}

unfoldable pub bind_event_map : ℕ → String → String → String → MemoryStore → MemoryStore
bind_event_map now fp ly_id deepsoc_id s =
    let row = get_or no_event_map (get s.event_maps fp) in
    record s { event_maps = put s.event_maps fp (bound now fp ly_id deepsoc_id row) }

unfoldable pub get_event_map : MemoryStore → String → Option EventMap
get_event_map s fp = get s.event_maps fp

unfoldable pub get_cursor : MemoryStore → String → SyncCursor
get_cursor s name =
    get_or (record { name = name; last_ts = ""; updated_at = 0 }) (get s.cursors name)

unfoldable pub save_cursor : ℕ → SyncCursor → MemoryStore → MemoryStore
save_cursor now c s = record s { cursors = put s.cursors c.name (record c { updated_at = now }) }

unfoldable pub already_pushed : MemoryStore → String → Bool
already_pushed s id = is_some (get s.pushed id)

unfoldable pub saved_push : ℕ → PushedEvent → PushedEvent
saved_push now pe = record pe { created_at = default_number pe.created_at now; updated_at = now }

unfoldable pub save_pushed_event : ℕ → PushedEvent → MemoryStore → MemoryStore
save_pushed_event now pe s = record s { pushed = put s.pushed pe.ly_event_id (saved_push now pe) }

unfoldable pub add_audit_log : ℕ → AuditLog → MemoryStore → MemoryStore × AuditLog
add_audit_log now a s =
    let a' : AuditLog = record a {
      id = inc64 s.audit_seq;
      created_at = default_number a.created_at now;
    } in
    (record s { audit_seq = inc64 s.audit_seq; audits = s.audits ++ a' ∷ [] }, a')
