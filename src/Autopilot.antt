-- ===== src/Autopilot.antt =====
-- internal/autopilot/autopilot.go: the rows that the autopilot writes for a new event. The database
-- is outside: what it answers is a field of `Pilot`, by the number of its calls so far. A text is
-- cut by its bytes; a character that is cut through is shown as one U+FFFD for each byte left of it.
pub mod Columns
pub mod Quoting
pub mod Flight
use Prim.Native.Char.{code}
use Prim.Native.String.{◌++◌ as append}
use traffic_analysis.Base.{
  ℕ, zero, suc, leb, ◌+◌, ◌-◌, Bool, true, false, ◌||◌, ◌&&◌, String, Option, none, some, List, [],
  ◌∷◌, ◌++◌, ◌==◌, ◌=ℕ◌, ltb, if◌then◌else◌,
}
use traffic_analysis.Base.Text.{trim_space, is_empty}
use traffic_analysis.Value.{Value, Fields, str, boolean, end, field}
use traffic_analysis.Store.{Result, ok, err}
use traffic_analysis.Hub.{Hub}

pub record Sql : Type 0 where
  pub text : String
  pub args : List Value

-- columnInfo
pub record Column : Type 0 where
  pub name : String
  pub data_type : String
  pub udt_name : String
  pub is_nullable : Bool
  pub has_default : Bool

pub record Pilot : Type 0 where
  pub database_url : String
  -- sql.Open and PingContext
  pub connect : ℕ → Option String
  pub exec : ℕ → Sql → Option String
  -- none for ErrNoRows
  pub query_state : ℕ → Sql → Result (Option String)
  pub query_columns : ℕ → Sql → Result (List Column)
  -- json.Unmarshal, and the field "enabled"
  pub enabled_of : String → Result Bool
  pub json_text : Fields → String
  -- time.Now().UTC(), by the number of calls so far and the column that it is for
  pub clock : ℕ → ℕ → Value
  -- strconv.FormatInt(time.Now().UnixNano(), 36)
  pub nanos : String

-- The calls of the database so far, the statements among them, and the registered publisher.
pub record Flown : Type 0 where
  pub calls : ℕ
  pub issued : List Sql
  pub publisher : Option Hub

unfoldable pub allowed_table : String → Bool
allowed_table table =
    table == "messages" || table == "tasks" || table == "executions" || table == "summaries"

unfoldable pub conflict_column : String → String
conflict_column table =
    if table == "messages"
    then "message_id"
    else if table == "tasks"
    then "task_id"
    else if table == "executions"
    then "execution_id"
    else if table == "summaries"
    then "summary_id"
    else ""

unfoldable pub is_double_quote : ℕ → Bool
is_double_quote c = c =ℕ b'"'

unfoldable pub double_quotes : String → String
unfolding is_double_quote
double_quotes String.[] = String.[]
double_quotes (String.◌∷◌ c s) =
    let rest = double_quotes s in
    if is_double_quote (code c) then String.◌∷◌ c (String.◌∷◌ c rest) else String.◌∷◌ c rest

unfoldable pub pq_quote_ident : String → String
pq_quote_ident s = append "\"" (append (double_quotes s) "\"")

is_separator : ℕ → Bool
is_separator c = c =ℕ b'/' || c =ℕ b' ' || c =ℕ b':' || c =ℕ b'.' || c =ℕ b'_'

dashed : String → String
unfolding is_separator
dashed String.[] = String.[]
dashed (String.◌∷◌ c s) =
    let rest = dashed s in if is_separator (code c) then append "-" rest else String.◌∷◌ c rest

-- The bytes of a character in UTF-8.
unfoldable pub byte_count : ℕ → ℕ
byte_count c = if ltb c 0x80 then 1 else if ltb c 0x800 then 2 else if ltb c 0x10000 then 3 else 4

broken : ℕ → String
broken zero = ""
broken (suc n) = append "�" (broken n)

-- s[:n], for an s of at least n bytes or none.
unfoldable pub first_bytes : ℕ → String → String
unfolding byte_count broken
first_bytes n String.[] = String.[]
first_bytes n (String.◌∷◌ c s) =
    let rest = first_bytes (n - byte_count (code c)) s in
    if leb (byte_count (code c)) n then String.◌∷◌ c rest else broken n

abbrev pub schema_sql : String
schema_sql =
    "\nCREATE TABLE IF NOT EXISTS app_states (\n    key VARCHAR(128) PRIMARY KEY,\n    value JSONB NOT NULL DEFAULT '{}'::jsonb,\n    updated_at TIMESTAMPTZ NOT NULL DEFAULT now()\n);\n"

abbrev pub mode_key : Value
mode_key = str "driving_mode"

abbrev mode_query : Sql
mode_query = record { text = "SELECT value FROM app_states WHERE key=$1"; args = mode_key ∷ [] }

module _ (p : Pilot) where
  unfoldable pub stable_suffix : String → String
  unfolding dashed
  stable_suffix event_id =
      let s = dashed (trim_space event_id) in if s == "" then p.nanos else first_bytes 48 s

  -- ExecContext
  unfoldable pub execute : Sql → Flown → Flown × Option String
  execute q w = (record w { calls = w.calls + 1; issued = w.issued ++ q ∷ [] }, p.exec w.calls q)

  after_schema :
      {A : Type 0} → (String → A) → (Flown → Flown × A) → Flown × Option String → Flown × A
  after_schema fail next (w, some e) = (w, fail e)
  after_schema fail next (w, none) = next w

  connected_to :
      {A : Type 0} → (String → A) → (Flown → Flown × A) → Option String → Flown → Flown × A
  unfolding after_schema
  connected_to fail next (some e) w = (w, fail e)
  connected_to fail next none w =
      after_schema fail next (execute (record { text = schema_sql; args = [] }) w)

  -- open and ensureSchema, and what follows them.
  unfoldable pub with_db : {A : Type 0} → (String → A) → (Flown → Flown × A) → Flown → Flown × A
  unfolding connected_to
  with_db fail next w =
      if trim_space p.database_url == ""
      then (w, fail "DATABASE_URL is empty")
      else connected_to fail next (p.connect w.calls) (record w { calls = w.calls + 1 })

  mode_of : Result (Option String) → Result Bool
  mode_of (err e) = err e
  mode_of (ok none) = ok false
  mode_of (ok (some raw)) = p.enabled_of raw

  select_mode : Flown → Flown × Result Bool
  unfolding mode_of
  select_mode w = (
    record w { calls = w.calls + 1; issued = w.issued ++ mode_query ∷ [] },
    mode_of (p.query_state w.calls mode_query),
  )

  -- GetDrivingMode
  unfoldable pub saved_driving_mode : Flown → Flown × Result Bool
  unfolding select_mode
  saved_driving_mode w = with_db err select_mode w

  -- SetDrivingMode
  unfoldable pub save_driving_mode : Bool → Flown → Flown × Option String
  save_driving_mode enabled w =
      with_db some
        (execute (record {
          text =
              "\nINSERT INTO app_states(key, value, updated_at)\nVALUES($1, $2::jsonb, now())\nON CONFLICT(key) DO UPDATE SET value=EXCLUDED.value, updated_at=now()\n";
          args = mode_key ∷ str (p.json_text (field "enabled" (boolean enabled) end)) ∷ [];
        }))
        w
