-- ===== src/Ly/Catalogue.antt =====
-- internal/lyserver: what the handlers send to the database.
pub mod Changes
pub mod Sent
use traffic_analysis.Base.{
  ℕ, ◌+◌, ◌≤◌, ◌<◌, Bool, true, false, ◌||◌, ◌&&◌, not, String, Option, none, some, List, [], ◌∷◌,
  ◌++◌, ◌==◌, if◌then◌else◌, ◌≡◌, refl, arith, All, All-append, any, if-elim, ltb, leb, ◌=ℕ◌,
}
use traffic_analysis.Dict.{Dict, get_or}
use traffic_analysis.Value.{Value, Fields, end, field}
use traffic_analysis.Store.{Result, ok, err}
use traffic_analysis.Ly.{
  Ly, LyRequest, LyReply, LyUser, Statement, Journal, sent_on, query_rows, answer_with, require_db,
  after_ping, read_params, param, query_value, first_trimmed, normalize_list_type, parse_limit,
  capped, positive_atoi,
}
use traffic_analysis.Ly.Settings.{
  user_text, session_text, agents_text, devices_text, config_text, configs_text, set_config_text,
  statement, auth, auth_user, open_session, denies, status, then_devices, device_rows, get_config,
  set_config, done_with,
}
use traffic_analysis.Ly.Lists.{
  list_text, unlist_text, enlist_text, objects_text, object_text, set_object_text, get_bw_list,
  lists_of_type, then_white, list_bw, set_bw_list, change_list, enlist, unlist, table_of,
  is_removal, get_mo, set_mo, save_object,
}
use traffic_analysis.Ly.Queries.{
  ly_event, event_of_kind, list_recent, list_aggregates, show_detail, event_statement,
  find_event_like, like_statement, feature, top_n, evidence, related_statement, ly_related_flows,
  ly_flow, ly_asset, describe_asset, ly_pcap, path_tail,
}
use traffic_analysis.Ly.Statements.{
  aggregate_text, detail_text, recent_text, latest_text, like_text, related_text, top_text,
  asset_text, asset_objects_text, asset_services_text, event_limit, top_limit, top_field, top_kind,
  has_suffix,
}

-- The texts of all statements: none has a part of a request.
abbrev pub catalogue : List String
catalogue =
    user_text
    ∷ session_text
    ∷ agents_text
    ∷ devices_text
    ∷ config_text
    ∷ configs_text
    ∷ set_config_text
    ∷ list_text "t_blacklist"
    ∷ list_text "t_whitelist"
    ∷ unlist_text "t_blacklist"
    ∷ unlist_text "t_whitelist"
    ∷ enlist_text "t_blacklist"
    ∷ enlist_text "t_whitelist"
    ∷ objects_text
    ∷ object_text
    ∷ set_object_text
    ∷ aggregate_text
    ∷ detail_text
    ∷ recent_text
    ∷ latest_text
    ∷ like_text
    ∷ related_text
    ∷ top_text "threat_source"
    ∷ top_text "victim_target"
    ∷ top_text "event_type"
    ∷ top_text "event_level"
    ∷ asset_text
    ∷ asset_objects_text
    ∷ asset_services_text
    ∷ []

unfoldable pub is_known : String → Bool
unfolding any
is_known text = any (λ t. t == text) catalogue

abbrev pub Known : Journal → Type 0
Known w = All (λ (q : Statement). is_known q.text ≡ true) w.issued

pub sent_on-Known :
    (q : Statement) (w : Journal) → is_known q.text ≡ true → Known w → Known (sent_on q w)
unfolding sent_on
sent_on-Known q w h k =
    All-append (λ (s : Statement). is_known s.text ≡ true) w.issued (q ∷ []) k (h, tt)

module _ (l : Ly) where
  pub answer_with-Known :
      {A : Type 0} (reply : A → LyReply) (p : Journal × Result A)
      → Known p.0
      → Known (answer_with l reply p).0
  unfolding answer_with
  answer_with-Known reply (w, ok a) k = k
  answer_with-Known reply (w, err e) k = k

  pub done_with-Known :
      (reply : LyReply) (w : Journal) (o : Option String)
      → Known w
      → Known (done_with l reply w o).0
  unfolding done_with
  done_with-Known reply w none k = k
  done_with-Known reply w (some e) k = k

  pub query_rows-Known :
      (q : Statement) (names : List String) (w : Journal)
      → is_known q.text ≡ true
      → Known w
      → Known (query_rows l q names w).0
  unfolding query_rows
  query_rows-Known q names w h k = sent_on-Known q w h k

  abbrev pub Keeps : (Journal → Journal × LyReply) → Type 0
  Keeps handler = (w : Journal) → Known w → Known (handler w).0

  pub require_db-Keeps :
      (next : Journal → Journal × LyReply) → Keeps next → Keeps (require_db l next)
  unfolding require_db
  require_db-Keeps next keeps w k =
      if-elim (λ (p : Journal × LyReply). Known p.0) l.has_db _ _ (λ _. pinged (l.ping w.calls))
        (λ _. k)
    where
      pinged :
          (o : Option String) → Known (after_ping l o (record w { calls = w.calls + 1 }) next).0
      pinged (some e) = k
      pinged none = keeps (record w { calls = w.calls + 1 }) k
