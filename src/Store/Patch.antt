-- ===== src/Store/Patch.antt =====
-- internal/store/common.go: reading a field of a patch. A key that is missing or holds nil, or a
-- value that does not fit, leaves the field alone. Parsing a text as a time is a parameter.
use traffic_analysis.Base.{ℕ, Bool, String, Option, none, some}
use traffic_analysis.Value.{Value, Fields, nil, str, boolean, time, at, sprint}

string_value : Value → Option String
string_value nil = none
string_value (str x) = some x
string_value v = some (sprint v)

unfoldable pub string_patch : Fields → String → Option String
unfolding string_value
string_patch p key = string_value (at p key)

bool_value : Value → Option Bool
bool_value (boolean b) = some b
bool_value _ = none

unfoldable pub bool_patch : Fields → String → Option Bool
unfolding bool_value
bool_patch p key = bool_value (at p key)

-- `parse` is time.Parse(time.RFC3339, ·).
time_value : (String → Option ℕ) → Value → Option ℕ
time_value parse (time t text) = some t
time_value parse (str x) = parse x
time_value parse _ = none

unfoldable pub time_patch : (String → Option ℕ) → Fields → String → Option ℕ
unfolding time_value
time_patch parse p key = time_value parse (at p key)

-- if v, ok := …Patch(patch, key); ok { field = v }
abbrev pub patched {ℓ} : {A : Type ℓ} → Option A → A → A
patched none old = old
patched (some v) old = v
