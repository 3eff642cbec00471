-- ===== src/Tests/Autopilot.antt =====
-- An insert of the autopilot into a table with a key, a column that must be given and one that need
-- not.
use Prim.Native.String.{◌++◌ as append}
use traffic_analysis.Base.{true, false, none, some, [], ◌∷◌, ◌≡◌, refl}
use traffic_analysis.Base.Text.{to_lower}
use traffic_analysis.Base.Search.{equal_fold, contains_codes, contains}
use traffic_analysis.Value.{Fields, str, nil, end, field}
use traffic_analysis.Store.{ok}
use traffic_analysis.Autopilot.{
  first_bytes, Column, Pilot, Flown, allowed_table, pq_quote_ident, is_double_quote,
}
use traffic_analysis.Autopilot.Columns.{
  taken_columns, column_value, lookup, default_value_for_column, insert_compat, columns_query,
  insert_statement,
}
use traffic_analysis.Autopilot.Columns.Required.{gives, insert_compat-gives}
use traffic_analysis.Autopilot.Quoting.{read_quoted, read_quoted-pq_quote_ident}

abbrev key_column : Column
key_column = record {
  name = "id";
  data_type = "bigint";
  udt_name = "int8";
  is_nullable = false;
  has_default = true;
}

abbrev status_column : Column
status_column = record {
  name = "task_status";
  data_type = "character varying";
  udt_name = "varchar";
  is_nullable = false;
  has_default = false;
}

abbrev note_column : Column
note_column = record {
  name = "note";
  data_type = "text";
  udt_name = "text";
  is_nullable = true;
  has_default = false;
}

abbrev pilot : Pilot
pilot = record {
  database_url = "postgres://localhost";
  connect = λ n. none;
  exec = λ n q. none;
  query_state = λ n q. ok none;
  query_columns = λ n q. ok (key_column ∷ status_column ∷ note_column ∷ []);
  enabled_of = λ text. ok true;
  json_text = λ m. "{}";
  clock = λ n i. nil;
  nanos = "1";
}

abbrev start : Flown
start = record { calls = 0; issued = []; publisher = none }

abbrev task_row : Fields
task_row = field "task_name" (str "t") end

-- The column of the status is filled in, and the others are passed over.
taken_status :
    taken_columns pilot 1 0 task_row (key_column ∷ status_column ∷ note_column ∷ [])
    ≡ ("task_status", str "completed") ∷ []
unfolding taken_columns column_value equal_fold lookup default_value_for_column contains_codes
    to_lower contains
taken_status = refl

insert_compat-gives_example :
    ((insert_compat pilot "tasks" task_row start).0.issued
      ≡ columns_query "tasks"
        ∷ insert_statement "tasks"
            (taken_columns pilot 1 0 task_row (key_column ∷ status_column ∷ note_column ∷ []))
        ∷ [])
    × (gives "task_status"
          (taken_columns pilot 1 0 task_row (key_column ∷ status_column ∷ note_column ∷ []))
        ≡ true)
unfolding allowed_table
insert_compat-gives_example =
    insert_compat-gives pilot task_row status_column refl refl "tasks" start (key_column ∷ [])
      (note_column ∷ []) refl refl

read_quoted-pq_quote_ident_example :
    read_quoted (append (pq_quote_ident "a\"b") " (id)") ≡ some ("a\"b", " (id)")
unfolding is_double_quote
read_quoted-pq_quote_ident_example = read_quoted-pq_quote_ident "a\"b" " (id)" refl

-- The letter é has two bytes: it is kept whole, or cut through.
cut_text : (first_bytes 3 "aéx" ≡ "aé") × (first_bytes 2 "aéx" ≡ "a�")
unfolding first_bytes
cut_text = (refl, refl)
