-- ===== src/Ly.antt =====
-- internal/lyserver/handlers.go and query_handlers.go: the handlers that answer from the database of
-- ly_server. The database is outside: what it answers to a statement, and the parsing of a request,
-- are fields of `Ly`. A handler is a function on `Journal`, which has the statements sent so far.
pub mod Lists
pub mod Settings
pub mod Statements
pub mod Queries
pub mod Catalogue
pub mod Limits
pub mod Entry
use Prim.Native.Char.{code}
use Prim.Native.String.{◌++◌ as append}
use traffic_analysis.Base.{
  ℕ, zero, suc, ◌+◌, ◌-◌, ◌*◌, ◌^◌, Bool, true, false, ◌&&◌, ◌||◌, String, Option, none, some, List,
  [], ◌∷◌, ◌++◌, ◌==◌, ◌=ℕ◌, leb, ltb, if◌then◌else◌, map,
}
use traffic_analysis.Base.Text.{trim_space, lower_is, codes, to_lower, is_empty}
use traffic_analysis.Base.Search.{decimal, contains_codes}
use traffic_analysis.Base.Numbers.{atoi}
use traffic_analysis.Dict.{Dict, get, put, get_or}
use traffic_analysis.Value.{Value, Fields, nil, str, number, end, field, sprint}
use traffic_analysis.Store.{Result, ok, err}

-- A request: the first values of the URL's query and of the form by their keys.
pub record LyRequest : Type 0 where
  pub path : String
  pub query_values : Dict String
  pub content_type : String
  pub form_values : Dict String
  -- the map that the body decodes to
  pub json_body : Option Fields
  pub remote_addr : String

pub record Statement : Type 0 where
  pub text : String
  pub args : List Value

-- What a row's column holds.
pub data Cell : Type 0 where
  bytes : String → Cell
  moment : ℕ → Cell
  plain_cell : Value → Cell

pub record LyUser : Type 0 where
  pub id : ℕ
  pub username : String
  pub password : String
  pub role : String
  pub nickname : String

-- Rows that do not scan are left out by the handlers, and so by the lists here.
pub record Ly : Type 0 where
  pub has_db : Bool
  pub ping : ℕ → Option String
  pub query : ℕ → Statement → Result (List (List Cell))
  pub query_user : ℕ → Statement → Result LyUser
  -- none for ErrNoRows
  pub query_config : ℕ → Statement → Result (Option Fields)
  pub query_items : ℕ → Statement → Result (List Fields)
  pub query_id : ℕ → Statement → Result ℕ
  pub exec : ℕ → Statement → Option String
  pub format : ℕ → String
  -- time.Now().UTC().UnixNano() in decimal
  pub nanos : ℕ → String
  -- strings.ToLower
  pub lower : String → String
  -- url.PathUnescape
  pub unescape : String → Option String
  -- json.Marshal of a map of texts and of a text, json.Valid, and jsonValue
  pub marshal_params : Dict String → String
  pub marshal_text : String → String
  pub valid : String → Bool
  pub json_value : String → Value

-- The calls of the database so far, and the statements among them.
pub record Journal : Type 0 where
  pub calls : ℕ
  pub issued : List Statement

pub record LyReply : Type 0 where
  pub code : ℕ
  pub body : Fields

-- firstNonEmpty of this package trims what it gives.
unfoldable pub first_trimmed : List String → String
first_trimmed [] = ""
first_trimmed (v ∷ vs) =
    let rest = first_trimmed vs in if trim_space v == "" then rest else trim_space v

-- asString of this package
unfoldable pub trimmed_text : Value → String
trimmed_text nil = ""
trimmed_text v = trim_space (sprint v)

unfoldable pub query_value : LyRequest → String → String
query_value r key = get_or "" (get r.query_values key)

put_all : Dict String → Dict String → Dict String
put_all [] params = params
put_all ((k, v) ∷ rest) params = put_all rest (put params k v)

put_fields : Fields → Dict String → Dict String
put_fields end params = params
put_fields (field k v rest) params = put_fields rest (put params k (sprint v))

posted_fields : Option Fields → Fields
posted_fields none = end
posted_fields (some m) = m

-- readParams
unfoldable pub read_params : LyRequest → Dict String
unfolding put_all put_fields posted_fields
read_params r =
    let params = put_all r.query_values [] in
    if contains_codes (codes "application/json") (map to_lower (codes r.content_type))
    then put_fields (posted_fields r.json_body) params
    else put_all r.form_values params

unfoldable pub param : Dict String → String → String
param params key = get_or "" (get params key)

-- An int that is above 0.
unfoldable pub positive_int : Option ℕ → Option ℕ
positive_int none = none
positive_int (some n) = if n =ℕ 0 || leb (2 ^ 63) n then none else some n

-- strconv.Atoi of a text, where it gives a positive number.
unfoldable pub positive_atoi : String → Option ℕ
positive_atoi s = positive_int (atoi s)

unfoldable pub parse_limit : String → ℕ → ℕ
parse_limit raw fallback = get_or fallback (positive_atoi raw)

-- if limit > most { limit = most }
unfoldable pub capped : ℕ → ℕ → ℕ
capped most limit = if ltb most limit then most else limit

unfoldable pub normalize_list_type : String → String
normalize_list_type v =
    let t = trim_space v in
    if lower_is t "white" || lower_is t "whitelist" || lower_is t "allow" || lower_is t "allowlist"
    then "white"
    else if lower_is t "black"
        || lower_is t "blacklist"
        || lower_is t "deny"
        || lower_is t "denylist"
        || lower_is t "block"
    then "black"
    else ""

unfoldable pub ly_error : ℕ → String → LyReply
ly_error code text = record {
  code = code;
  body = field "status" (str "error") (
      field "result" (str "error")
        (field "message" (str text) (field "code" (str (decimal code)) end)));
}

-- {"status": "success", "result": "ok", …}
unfoldable pub ly_success : Fields → LyReply
ly_success rest = record {
  code = 200;
  body = field "status" (str "success") (field "result" (str "ok") rest);
}

-- The wire after one statement.
unfoldable pub sent_on : Statement → Journal → Journal
sent_on q w = record { calls = w.calls + 1; issued = w.issued ++ q ∷ [] }

module _ (l : Ly) where
  normalize_db_value : Cell → Value
  normalize_db_value (bytes s) = str s
  normalize_db_value (moment t) = str (l.format t)
  normalize_db_value (plain_cell v) = v

  named_cells : List String → List Cell → Fields
  unfolding normalize_db_value
  named_cells (name ∷ names) (c ∷ cells) =
      field name (normalize_db_value c) (named_cells names cells)
  named_cells _ _ = end

  rows_named : List String → List (List Cell) → List Fields
  unfolding named_cells
  rows_named names [] = []
  rows_named names (row ∷ rows) = named_cells names row ∷ rows_named names rows

  named_result : List String → Result (List (List Cell)) → Result (List Fields)
  unfolding rows_named
  named_result names (ok rows) = ok (rows_named names rows)
  named_result names (err e) = err e

  -- queryRows
  unfoldable pub query_rows : Statement → List String → Journal → Journal × Result (List Fields)
  unfolding named_result
  query_rows q names w = (sent_on q w, named_result names (l.query w.calls q))

  -- What an answer is made of, or 500.
  unfoldable pub answer_with : {A : Type 0} → (A → LyReply) → Journal × Result A → Journal × LyReply
  answer_with reply (w, ok a) = (w, reply a)
  answer_with reply (w, err e) = (w, ly_error 500 e)

  after_ping : Option String → Journal → (Journal → Journal × LyReply) → Journal × LyReply
  after_ping (some e) w next = (w, ly_error 502 e)
  after_ping none w next = next w

  -- requireDB, and what follows where there is one.
  unfoldable pub require_db : (Journal → Journal × LyReply) → Journal → Journal × LyReply
  unfolding after_ping
  require_db next w =
      if l.has_db
      then after_ping (l.ping w.calls) (record w { calls = w.calls + 1 }) next
      else (w, ly_error 502 "ly_server PostgreSQL compatibility database is not configured")
