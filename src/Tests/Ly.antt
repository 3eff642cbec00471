-- ===== src/Tests/Ly.antt =====
-- Requests to ly_server's handlers with a database that answers nothing.
use traffic_analysis.Base.{true, none, some, [], ◌∷◌, ◌++◌, ◌≡◌, refl, All}
use traffic_analysis.Base.Text.{trim_space}
use traffic_analysis.Base.Search.{contains_codes}
use traffic_analysis.Dict.{get, put}
use traffic_analysis.Value.{nil}
use traffic_analysis.Store.{ok}
use traffic_analysis.Ly.{Ly, LyRequest, LyUser, Journal, read_params, param, first_trimmed}
use traffic_analysis.Ly.Settings.{auth, auth_password, session_reply}
use traffic_analysis.Ly.Catalogue.{is_known}
use traffic_analysis.Ly.Catalogue.Sent.{ly_handler, to_set_bw_list, ly_handler-Known}
use traffic_analysis.Ly.Entry
use traffic_analysis.Ly.Entry.{auth-no_password}

abbrev root : LyUser
root = record { id = 1; username = "admin"; password = "secret"; role = "admin"; nickname = "" }

abbrev database : Ly
database = record {
  has_db = true;
  ping = λ n. none;
  query = λ n q. ok [];
  query_user = λ n q. ok root;
  query_config = λ n q. ok none;
  query_items = λ n q. ok [];
  query_id = λ n q. ok 1;
  exec = λ n q. none;
  format = λ t. "";
  nanos = λ n. "1";
  lower = λ text. text;
  unescape = λ text. some text;
  marshal_params = λ params. "{}";
  marshal_text = λ text. text;
  valid = λ text. true;
  json_value = λ text. nil;
}

-- A request that would break out of a statement that is built from its text.
abbrev attack : LyRequest
attack = record {
  path = "/d/bwlist";
  query_values = ("limit", "100000") ∷ ("value", "x'; DROP TABLE t_user; --") ∷ [];
  content_type = "";
  form_values = [];
  json_body = none;
  remote_addr = "";
}

abbrev quiet : Journal
quiet = record { calls = 0; issued = [] }

ly_handler-Known_example :
    All (λ q. is_known q.text ≡ true) (ly_handler database to_set_bw_list attack quiet).0.issued
ly_handler-Known_example = ly_handler-Known database to_set_bw_list attack quiet tt

no_password : auth_password database (read_params attack) ≡ ""
unfolding auth_password first_trimmed param read_params get put trim_space contains_codes
no_password = refl

auth-no_password_example :
    ((auth database attack quiet).1
      ≡ session_reply database root (Entry.entry_token database attack quiet refl refl))
    × ((auth database attack quiet).0.issued
        ≡ quiet.issued
          ++ Entry.asked_user database attack quiet refl refl
            ∷ Entry.session database attack quiet refl refl refl
            ∷ [])
auth-no_password_example = auth-no_password database attack quiet refl refl refl no_password
