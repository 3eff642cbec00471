-- ===== src/Service/Sync.antt =====
-- internal/service/services.go: RunSyncOnce. A negative count of retries runs no attempt, as 0 does.
pub mod Laws
pub mod Rounds
use Prim.Native.String.{◌++◌ as append, compare}
use text.Mathlib.Text.{is_lt}
use traffic_analysis.Base.{
  ℕ, zero, suc, ◌+◌, Bool, true, false, not, ◌&&◌, String, Option, none, some, List, [], ◌∷◌, ◌==◌,
  if◌then◌else◌, length,
}
use traffic_analysis.Value.{Fields, at, as_string}
use traffic_analysis.Domain.{PushedEvent, SyncCursor}
use traffic_analysis.Store.{MemoryStore, Result, ok, err}
use traffic_analysis.Store.Sync.{get_cursor, save_cursor, already_pushed, save_pushed_event}
use traffic_analysis.Service.{Outside, World, completed, publish}
use traffic_analysis.Service.Mapping.{make_idempotency_key}
use traffic_analysis.Service.Ingest.{Ingested, deepsoc_id_of, process_ly_event}

-- a > b, for strings
unfoldable pub text_after : String → String → Bool
text_after a b = is_lt (compare b a)

unfoldable pub newer : String → String → String
newer newest ts = if not (ts == "") && text_after ts newest then ts else newest

-- newestTS, pushed and failed while the loop runs.
pub record Progress : Type 0 where
  pub newest : String
  pub pushed : ℕ
  pub failed : ℕ

module _ (o : Outside) where
  unfoldable pub record_id_of : Fields → String
  record_id_of ev =
      let id = as_string (at ev "event_id") in
      if id == "" then append "noid:" (make_idempotency_key o ev) else id

  -- The retry loop: `left` attempts after the `i` that failed. It gives the record and the last
  -- error.
  unfoldable pub attempts :
      ℕ → ℕ → Fields → PushedEvent → Option String → World → World × PushedEvent × Option String
  attempts zero i ev pe last w = (w, pe, last)
  attempts (suc left) i ev pe last w =
      let pe' : PushedEvent = record pe { attempts = i + 1 } in
      let (w', result) = process_ly_event o ev w in
      elim result [
        | ok res ↦
            (w', record pe' { status = "SUCCESS"; deepsoc_event_id = deepsoc_id_of res }, none)
        | err e ↦ attempts left (i + 1) ev pe' (some e) w'
      ]

  unfoldable pub new_record : String → String → PushedEvent
  new_record id key = record {
    ly_event_id = id;
    idempotency_key = key;
    deepsoc_event_id = "";
    status = "FAILED";
    attempts = 0;
    last_error = "";
    created_at = 0;
    updated_at = 0;
  }

  unfoldable pub settle : PushedEvent → Option String → World → Progress → World × Progress
  settle pe (some e) w p = (
    record w {
      store = save_pushed_event (o.now w.readings) (record pe { last_error = e }) w.store;
      readings = w.readings + 1;
    },
    record p { failed = p.failed + 1 },
  )
  settle pe none w p = (
    record w { store = save_pushed_event (o.now w.readings) pe w.store; readings = w.readings + 1 },
    record p { pushed = p.pushed + 1 },
  )

  -- One round of the loop.
  unfoldable pub sync_item : ℕ → Fields → World × Progress → World × Progress
  unfolding settle
  sync_item retries ev (w, p) =
      let p' : Progress = record p { newest = newer p.newest (as_string (at ev "time")) } in
      let id = record_id_of ev in
      let (w', pe, last) =
        attempts retries 0 ev (new_record id (make_idempotency_key o ev)) none w in
      if already_pushed w.store id then (w, p') else settle pe last w' p'

  unfoldable pub sync_items : ℕ → List Fields → World × Progress → World × Progress
  sync_items retries [] st = st
  sync_items retries (ev ∷ items) st = sync_items retries items (sync_item retries ev st)

  -- The map that RunSyncOnce returns.
  pub record SyncReport : Type 0 where
    pub since : String
    pub fetched : ℕ
    pub progress : Progress

  unfoldable pub finish_sync : ℕ → String → Result (List Fields) → World → World × Result SyncReport
  finish_sync retries since (err e) w = (w, err e)
  finish_sync retries since (ok items) w =
      let (w', p) =
        sync_items retries items (w, record { newest = since; pushed = 0; failed = 0 }) in
      let cursor : SyncCursor = record {
        name = "flowshadow_events";
        last_ts = p.newest;
        updated_at = 0;
      } in
      let saved : World = record w' {
        store = save_cursor (o.now w'.readings) cursor w'.store;
        readings = w'.readings + 1;
      } in
      (
        publish o "sync.completed" "" "flowshadow"
            (completed since p.newest (length items) p.pushed p.failed) saved,
        ok (record { since = since; fetched = length items; progress = p }),
      )

  unfoldable pub run_sync_once : ℕ → ℕ → ℕ → World → World × Result SyncReport
  unfolding finish_sync
  run_sync_once batch_size lookback_seconds max_retries w =
      let n = w.readings in
      let last_ts = (get_cursor w.store "flowshadow_events").last_ts in
      let since = if last_ts == "" then o.before (o.now n) lookback_seconds else last_ts in
      finish_sync max_retries since (o.flowshadow_list (n + 1) since batch_size)
        (record w { readings = n + 2 })
