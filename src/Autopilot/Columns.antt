-- ===== src/Autopilot/Columns.antt =====
-- internal/autopilot/autopilot.go: insertCompat, which takes from a map what the columns of a table
-- ask for, and fills in what they want besides.
pub mod Required
use Prim.Native.String.{◌++◌ as append}
use traffic_analysis.Base.{
  ℕ, ◌+◌, Bool, true, false, ◌||◌, ◌&&◌, String, Option, none, some, List, [], ◌∷◌, ◌++◌, ◌==◌,
  if◌then◌else◌, map,
}
use traffic_analysis.Base.Text.{codes, to_lower, lower_is}
use traffic_analysis.Base.Search.{decimal, equal_fold, contains, begins, contains_codes}
use traffic_analysis.Value.{Value, Fields, str, number, boolean, end, field}
use traffic_analysis.Store.{Result, ok, err}
use traffic_analysis.Autopilot.{
  Sql, Column, Pilot, Flown, allowed_table, conflict_column, pq_quote_ident, execute,
}

-- m[key] and whether the key is there.
unfoldable pub lookup : Fields → String → Option Value
lookup end key = none
lookup (field k v m) key = let rest = lookup m key in if k == key then some v else rest

-- strings.Contains and strings.HasSuffix of strings.ToLower(name)
lower_contains : String → String → Bool
lower_contains name part = contains_codes (codes part) (map to_lower (codes name))

ends_codes : List ℕ → List ℕ → Bool
ends_codes part [] = begins part [] && begins [] part
ends_codes part (c ∷ cs) = (begins part (c ∷ cs) && begins (c ∷ cs) part) || ends_codes part cs

lower_ends : String → String → Bool
unfolding ends_codes
lower_ends name part = ends_codes (codes part) (map to_lower (codes name))

is_event_column : String → Bool
unfolding lower_contains
is_event_column name = lower_contains name "event" || lower_is name "flow_id"

is_integer : Column → Bool
is_integer c =
    contains c.data_type "integer"
    || contains c.data_type "numeric"
    || c.udt_name == "int4"
    || c.udt_name == "int8"

holds_text : String → Bool
unfolding lower_contains
holds_text name =
    lower_contains name "content"
    || lower_contains name "summary"
    || lower_contains name "result"
    || lower_contains name "description"

join_comma : List String → String
join_comma [] = ""
join_comma (t ∷ []) = t
join_comma (t ∷ t' ∷ l) = append t (append ", " (join_comma (t' ∷ l)))

-- The names quoted, the placeholders from the one after `n` on, and the arguments.
quoted_names : List (String × Value) → List String
quoted_names [] = []
quoted_names ((name, v) ∷ rest) = pq_quote_ident name ∷ quoted_names rest

unfoldable pub placeholders : ℕ → List (String × Value) → List String
placeholders n [] = []
placeholders n (e ∷ rest) = append "$" (decimal (n + 1)) ∷ placeholders (n + 1) rest

arguments : List (String × Value) → List Value
arguments [] = []
arguments ((name, v) ∷ rest) = v ∷ arguments rest

conflict_clause : String → String
conflict_clause column =
    if column == ""
    then ""
    else append " ON CONFLICT (" (append (pq_quote_ident column) ") DO NOTHING")

unfoldable pub insert_statement : String → List (String × Value) → Sql
unfolding join_comma quoted_names arguments conflict_clause
insert_statement table taken = record {
  text = append "INSERT INTO " (
      append (pq_quote_ident table) (
        append " (" (
          append (join_comma (quoted_names taken)) (
            append ") VALUES (" (
              append (join_comma (placeholders 0 taken))
                (append ")" (conflict_clause (conflict_column table))))))));
  args = arguments taken;
}

unfoldable pub columns_query : String → Sql
columns_query table = record {
  text =
      "\nSELECT column_name, data_type, udt_name, is_nullable, column_default IS NOT NULL\nFROM information_schema.columns\nWHERE table_schema='public' AND table_name=$1\nORDER BY ordinal_position\n";
  args = str table ∷ [];
}

keep : String → Option Value → List (String × Value) → List (String × Value)
keep name none rest = rest
keep name (some v) rest = (name, v) ∷ rest

module _ (p : Pilot) where
  plain_default : Value → Column → Value
  unfolding lower_contains lower_ends is_integer holds_text
  plain_default now c =
      if lower_contains c.name "time" || lower_ends c.name "_at"
      then now
      else if contains c.data_type "json" || c.udt_name == "jsonb" || c.udt_name == "json"
      then str (p.json_text (field "source" (str "autopilot") end))
      else if c.data_type == "boolean" || c.udt_name == "bool"
      then boolean true
      else if is_integer c
      then number (if lower_contains c.name "round" then "1" else "0")
      else if lower_contains c.name "status"
      then str "completed"
      else if lower_contains c.name "type"
      then str "autopilot"
      else if holds_text c.name
      then str "自动驾驶兼容数据"
      else str "autopilot"

  event_or_plain : Option Value → Value → Column → Value
  unfolding is_event_column plain_default
  event_or_plain none now c = plain_default now c
  event_or_plain (some v) now c = if is_event_column c.name then v else plain_default now c

  unfoldable pub default_value_for_column : Value → Column → Fields → Value
  unfolding event_or_plain
  default_value_for_column now c values = event_or_plain (lookup values "event_id") now c

  given_or_default : Option Value → Value → Column → Fields → Option Value
  given_or_default (some v) now c values = some v
  given_or_default none now c values =
      if c.is_nullable || c.has_default then none else some (default_value_for_column now c values)

  -- What a column is given, or nothing for a column that is passed over.
  unfoldable pub column_value : Value → Column → Fields → Option Value
  unfolding given_or_default
  column_value now c values =
      if equal_fold c.name "id" && c.has_default
      then none
      else given_or_default (lookup values c.name) now c values

  -- `n` columns of the table come before.
  unfoldable pub taken_columns : ℕ → ℕ → Fields → List Column → List (String × Value)
  unfolding keep
  taken_columns calls n values [] = []
  taken_columns calls n values (c ∷ cs) =
      keep c.name (column_value (p.clock calls n) c values) (taken_columns calls (n + 1) values cs)

  insert_taken : String → List (String × Value) → Flown → Flown × Option String
  insert_taken table [] w = (w, none)
  insert_taken table (e ∷ rest) w = execute p (insert_statement table (e ∷ rest)) w

  with_columns : String → Fields → Result (List Column) → Flown → Flown × Option String
  unfolding insert_taken
  with_columns table values (err e) w = (w, some e)
  with_columns table values (ok cols) w = insert_taken table (taken_columns w.calls 0 values cols) w

  unfoldable pub insert_compat : String → Fields → Flown → Flown × Option String
  unfolding columns_query with_columns
  insert_compat table values w =
      let q = columns_query table in
      if allowed_table table
      then with_columns table values (p.query_columns w.calls q)
          (record w { calls = w.calls + 1; issued = w.issued ++ q ∷ [] })
      else (w, some (append "unsupported table \"" (append table "\"")))
