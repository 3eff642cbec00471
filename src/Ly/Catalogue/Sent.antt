-- ===== src/Ly/Catalogue/Sent.antt =====
-- internal/lyserver: every handler sends statements of the catalogue only.
use traffic_analysis.Base.{true, ◌||◌, String, List, [], ◌∷◌, ◌==◌, ◌≡◌, refl, if-elim}
use traffic_analysis.Base.Text.{lower_is}
use traffic_analysis.Value.{Fields, at}
use traffic_analysis.Store.{Result, ok, err}
use traffic_analysis.Ly.{
  Ly, LyRequest, LyReply, Statement, Journal, query_value, first_trimmed, trimmed_text,
}
use traffic_analysis.Ly.Settings.{statement, auth, status, get_config, set_config}
use traffic_analysis.Ly.Lists.{get_bw_list, set_bw_list, get_mo, set_mo}
use traffic_analysis.Ly.Queries.{
  ly_event, event_of_kind, list_recent, list_aggregates, show_detail, event_statement,
  find_event_like, like_statement, feature, top_n, evidence, related_statement, ly_related_flows,
  ly_flow, ly_asset, describe_asset, ly_pcap,
}
use traffic_analysis.Ly.Statements.{top_text, top_field, top_kind, has_suffix}
use traffic_analysis.Ly.Catalogue.{
  is_known, Known, Keeps, answer_with-Known, query_rows-Known, require_db-Keeps,
}
use traffic_analysis.Ly.Catalogue.Changes.{
  Answers, auth-Keeps, status-Keeps, get_config-Keeps, set_config-Keeps, get_mo-Keeps, set_mo-Keeps,
  get_bw_list-Keeps, set_bw_list-Keeps,
}

-- The handlers.
pub data LyRoute : Type 0 where
  to_auth : LyRoute
  to_status : LyRoute
  to_get_config : LyRoute
  to_set_config : LyRoute
  to_get_mo : LyRoute
  to_set_mo : LyRoute
  to_get_bw_list : LyRoute
  to_set_bw_list : LyRoute
  to_event : LyRoute
  to_feature : LyRoute
  to_top_n : LyRoute
  to_evidence : LyRoute
  to_asset : LyRoute
  to_flow : LyRoute
  to_related_flows : LyRoute
  to_pcap : LyRoute

module _ (l : Ly) where
  unfoldable pub ly_handler : LyRoute → LyRequest → Journal → Journal × LyReply
  ly_handler to_auth = auth l
  ly_handler to_status = status l
  ly_handler to_get_config = get_config l
  ly_handler to_set_config = set_config l
  ly_handler to_get_mo = get_mo l
  ly_handler to_set_mo = set_mo l
  ly_handler to_get_bw_list = get_bw_list l
  ly_handler to_set_bw_list = set_bw_list l
  ly_handler to_event = ly_event l
  ly_handler to_feature = feature l
  ly_handler to_top_n = top_n l
  ly_handler to_evidence = evidence l
  ly_handler to_asset = ly_asset l
  ly_handler to_flow = ly_flow l
  ly_handler to_related_flows = ly_related_flows l
  ly_handler to_pcap = ly_pcap l

  module _ (r : LyRequest) where
    ly_event-Keeps : Keeps l (ly_event l r)
    unfolding ly_event event_of_kind list_aggregates show_detail list_recent event_statement
        statement is_known
    ly_event-Keeps = require_db-Keeps l _ (λ w k. of_kind _ w k)
      where
        detail : (kind : String) (w : Journal) → Known w → Answers (show_detail l r kind w)
        detail kind w k =
            if-elim Answers
              (first_trimmed (query_value r "event_id" ∷ query_value r "id" ∷ []) == "") _ _
              (λ _. k) (λ _. answer_with-Known l _ _ (query_rows-Known l _ _ w refl k))

        of_kind : (kind : String) (w : Journal) → Known w → Answers (event_of_kind l r kind w)
        of_kind kind w k =
            if-elim Answers
              (lower_is kind "aggre" || lower_is kind "aggregate" || lower_is kind "aggregation") _
              _ (λ _. answer_with-Known l _ _ (query_rows-Known l _ _ w refl k))
              (λ _.
                if-elim Answers (lower_is kind "detail") _ _ (λ _. detail kind w k)
                  (λ _. answer_with-Known l _ _ (query_rows-Known l _ _ w refl k)))

    find_event_like-Known : (id : String) (w : Journal) → Known w → Known (find_event_like l id w).0
    unfolding find_event_like like_statement statement is_known
    find_event_like-Known id w k =
        query_rows-Known l _ _ w
          (if-elim (λ (q : Statement). is_known q.text ≡ true) (id == "") _ _ (λ _. refl)
            (λ _. refl))
          k

    feature-Keeps : Keeps l (feature l r)
    unfolding feature
    feature-Keeps = require_db-Keeps l _ (λ w k. find_event_like-Known _ w k)

    evidence-Keeps : Keeps l (evidence l r)
    unfolding evidence
    evidence-Keeps = require_db-Keeps l _ (λ w k. find_event_like-Known _ w k)

    top_field-known : (kind : String) → is_known (top_text (top_field kind)) ≡ true
    unfolding top_field is_known
    top_field-known kind =
        if-elim Finds
          (lower_is kind "dst"
            || lower_is kind "dest"
            || lower_is kind "destination"
            || lower_is kind "victim"
            || lower_is kind "victim_target")
          _ _ (λ _. refl)
          (λ _.
            if-elim Finds
              (lower_is kind "event" || lower_is kind "event_type" || lower_is kind "type") _ _
              (λ _. refl)
              (λ _.
                if-elim Finds
                  (lower_is kind "level" || lower_is kind "event_level" || lower_is kind "severity")
                  _ _ (λ _. refl) (λ _. refl)))
      where
        Finds : String → Type 0
        Finds name = is_known (top_text name) ≡ true

    top_n-Keeps : Keeps l (top_n l r)
    unfolding top_n statement
    top_n-Keeps =
        require_db-Keeps l _ (λ w k.
          answer_with-Known l _ _ (query_rows-Known l _ _ w (top_field-known (top_kind r)) k))

    related_statement-known : (base : Fields) → is_known (related_statement l r base).text ≡ true
    unfolding related_statement statement is_known
    related_statement-known base =
        if-elim (λ (q : Statement). is_known q.text ≡ true)
          (trimmed_text (at base "threat_source") == "") _ _ (λ _. refl) (λ _. refl)

    ly_related_flows-Keeps : Keeps l (ly_related_flows l r)
    unfolding ly_related_flows
    ly_related_flows-Keeps = require_db-Keeps l _ (λ w k.
        answer_with-Known l _ _
          (query_rows-Known l _ _ _ (related_statement-known _) (find_event_like-Known _ w k)))

    ly_flow-Keeps : Keeps l (ly_flow l r)
    unfolding ly_flow
    ly_flow-Keeps = require_db-Keeps l _ (λ w k.
        if-elim Answers (has_suffix r.path "/related") _ _ (λ _. ly_related_flows-Keeps w k)
          (λ _. find_event_like-Known _ w k))

    ly_asset-Keeps : Keeps l (ly_asset l r)
    unfolding ly_asset describe_asset statement is_known
    ly_asset-Keeps = require_db-Keeps l _ (λ w k. described _ _ (query_rows-Known l _ _ w refl k))
      where
        described :
            (ip : String) (p : Journal × Result (List Fields))
            → Known p.0
            → Answers (describe_asset l ip p)
        described ip (w, err e) k = k
        described ip (w, ok assets) k =
            query_rows-Known l _ _ _ refl (query_rows-Known l _ _ w refl k)

  -- Whatever a request holds and whatever the database answers, a handler of ly_server sends only
  -- statements whose text is one of the catalogue's: what a request holds gets into their arguments
  -- alone.
  pub ly_handler-Known :
      (route : LyRoute) (r : LyRequest) (w : Journal) → Known w → Known (ly_handler route r w).0
  unfolding ly_handler ly_pcap
  ly_handler-Known to_auth r = auth-Keeps l r
  ly_handler-Known to_status r = status-Keeps l r
  ly_handler-Known to_get_config r = get_config-Keeps l r
  ly_handler-Known to_set_config r = set_config-Keeps l r
  ly_handler-Known to_get_mo r = get_mo-Keeps l r
  ly_handler-Known to_set_mo r = set_mo-Keeps l r
  ly_handler-Known to_get_bw_list r = get_bw_list-Keeps l r
  ly_handler-Known to_set_bw_list r = set_bw_list-Keeps l r
  ly_handler-Known to_event r = ly_event-Keeps r
  ly_handler-Known to_feature r = feature-Keeps r
  ly_handler-Known to_top_n r = top_n-Keeps r
  ly_handler-Known to_evidence r = evidence-Keeps r
  ly_handler-Known to_asset r = ly_asset-Keeps r
  ly_handler-Known to_flow r = ly_flow-Keeps r
  ly_handler-Known to_related_flows r = ly_related_flows-Keeps r
  ly_handler-Known to_pcap r = λ w k. k
