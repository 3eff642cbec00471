-- ===== src/Ly/Limits.antt =====
-- internal/lyserver/query_handlers.go: how many rows a request can ask for.
use traffic_analysis.Base.{ℕ, ◌≤◌, ◌<◌, ◌^◌, Option, none, some, arith}
use traffic_analysis.Dict.{get_or}
use traffic_analysis.Ly.{LyRequest, positive_int, positive_atoi, parse_limit, capped}
use traffic_analysis.Ly.Statements.{event_limit, top_limit}

positive_int-bounds :
    (fallback : ℕ) (o : Option ℕ)
    → 1 ≤ fallback
    → fallback < 2 ^ 63
    → (1 ≤ get_or fallback (positive_int o)) × (get_or fallback (positive_int o) < 2 ^ 63)
unfolding positive_int
positive_int-bounds fallback none low high = (low, high)
positive_int-bounds fallback (some n) low high = ground arith

capped-bounds : (most n : ℕ) → 1 ≤ most → 1 ≤ n → (1 ≤ capped most n) × (capped most n ≤ most)
unfolding capped
capped-bounds most n low given = ground arith

-- Whatever the parameter "limit" of a request is, a list of events is limited to between 1 and 500
-- rows, and the top list and the related flows to between 1 and 100.
limits-bounds :
    (r : LyRequest)
    → ((1 ≤ event_limit r) × (event_limit r ≤ 500)) × ((1 ≤ top_limit r) × (top_limit r ≤ 100))
unfolding event_limit top_limit parse_limit positive_atoi
limits-bounds r = (
  capped-bounds 500 _ (omega arith) (positive_int-bounds 100 _ (omega arith) (omega arith)).0,
  capped-bounds 100 _ (omega arith) (positive_int-bounds 10 _ (omega arith) (omega arith)).0,
)
