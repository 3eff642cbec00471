-- ===== src/Ly/Catalogue/Changes.antt =====
-- internal/lyserver: the handlers of users, settings, lists and objects send statements of the
-- catalogue only.
use traffic_analysis.Base.{true, String, List, [], ◌∷◌, ◌==◌, if◌then◌else◌, ◌≡◌, refl, if-elim}
use traffic_analysis.Dict.{Dict}
use traffic_analysis.Value.{Fields}
use traffic_analysis.Store.{Result, ok, err}
use traffic_analysis.Ly.{
  Ly, LyRequest, LyReply, LyUser, Statement, Journal, sent_on, read_params, param, query_value,
  first_trimmed, normalize_list_type,
}
use traffic_analysis.Ly.Settings.{
  statement, auth, auth_user, open_session, denies, status, then_devices, device_rows, get_config,
  set_config,
}
use traffic_analysis.Ly.Lists.{
  unlist_text, enlist_text, get_bw_list, lists_of_type, then_white, list_bw, set_bw_list,
  change_list, enlist, unlist, table_of, is_removal, get_mo, set_mo, save_object,
}
use traffic_analysis.Ly.Catalogue.{
  is_known, Known, Keeps, sent_on-Known, answer_with-Known, done_with-Known, query_rows-Known,
  require_db-Keeps,
}

abbrev pub Answers : Journal × LyReply → Type 0
Answers p = Known p.0

module _ (l : Ly) where
  module _ (r : LyRequest) where
    pub auth-Keeps : Keeps l (auth l r)
    unfolding auth statement open_session auth_user is_known
    auth-Keeps =
        require_db-Keeps l _
          (λ w k. user_found _ (sent_on _ w) (l.query_user w.calls _) (sent_on-Known _ w refl k))
      where
        user_found :
            (password : String) (w : Journal) (o : Result LyUser)
            → Known w
            → Answers (auth_user l r password w o)
        user_found password w (err e) k = k
        user_found password w (ok row) k =
            if-elim Answers (denies l row password) _ _ (λ _. k) (λ _. sent_on-Known _ w refl k)

    pub status-Keeps : Keeps l (status l r)
    unfolding status statement then_devices device_rows is_known
    status-Keeps =
        require_db-Keeps l _ (λ w k. then_devices-Known _ (query_rows-Known l _ _ w refl k))
      where
        then_devices-Known :
            (p : Journal × Result (List Fields)) → Known p.0 → Answers (then_devices l p)
        then_devices-Known (w, err e) k = k
        then_devices-Known (w, ok agents) k =
            answer_with-Known l _ _ (query_rows-Known l _ _ w refl k)

    pub get_config-Keeps : Keeps l (get_config l r)
    unfolding get_config statement is_known
    get_config-Keeps = require_db-Keeps l _ (λ w k.
        if-elim Answers (first_trimmed (query_value r "key" ∷ query_value r "name" ∷ []) == "") _ _
          (λ _. answer_with-Known l _ _ (sent_on-Known _ w refl k))
          (λ _. answer_with-Known l _ _ (sent_on-Known _ w refl k)))

    pub set_config-Keeps : Keeps l (set_config l r)
    unfolding set_config statement is_known
    set_config-Keeps =
        require_db-Keeps l _ (λ w k. done_with-Known l _ _ _ (sent_on-Known _ w refl k))

    pub get_mo-Keeps : Keeps l (get_mo l r)
    unfolding get_mo statement is_known
    get_mo-Keeps = require_db-Keeps l _ (λ w k. answer_with-Known l _ _ (
        sent_on-Known _ w
          (if-elim (λ (q : Statement). is_known q.text ≡ true) (moip == "") _ _ (λ _. refl)
            (λ _. refl))
          k))
      where
        moip : String
        moip = let given = query_value r "moip" in if given == "" then query_value r "ip" else given

    pub set_mo-Keeps : Keeps l (set_mo l r)
    unfolding set_mo save_object statement is_known
    set_mo-Keeps = require_db-Keeps l _ (λ w k.
        let params = read_params r in
        if-elim Answers (first_trimmed (param params "moip" ∷ param params "ip" ∷ []) == "") _ _
          (λ _. k) (λ _. answer_with-Known l _ _ (sent_on-Known _ w refl k)))

    pub get_bw_list-Keeps : Keeps l (get_bw_list l r)
    unfolding get_bw_list lists_of_type list_bw then_white statement is_known
    get_bw_list-Keeps =
        let asked =
          first_trimmed
            (query_value r "type" ∷ query_value r "list_type" ∷ query_value r "op" ∷ []) in
        require_db-Keeps l _ (of_type (normalize_list_type asked))
      where
        then_white-Known :
            (p : Journal × Result (List Fields)) → Known p.0 → Answers (then_white l p)
        then_white-Known (w, err e) k = k
        then_white-Known (w, ok black) k = answer_with-Known l _ _ (sent_on-Known _ w refl k)

        of_type :
            (list_type : String) (w : Journal) → Known w → Answers (lists_of_type l list_type w)
        of_type list_type w k =
            if-elim Answers (list_type == "black") _ _
              (λ _. answer_with-Known l _ _ (sent_on-Known _ w refl k))
              (λ _.
                if-elim Answers (list_type == "white") _ _
                  (λ _. answer_with-Known l _ _ (sent_on-Known _ w refl k))
                  (λ _. then_white-Known _ (sent_on-Known _ w refl k)))

    unlist-Known :
        (list_type value : String) (w : Journal)
        → Known w
        → Answers (unlist l (table_of l list_type) value w)
    unfolding unlist table_of statement is_known
    unlist-Known list_type value w k = done_with-Known l _ _ _ (
        sent_on-Known _ w
          (if-elim (λ table. is_known (unlist_text table) ≡ true) (list_type == "white") _ _
            (λ _. refl) (λ _. refl))
          k)

    enlist-Known :
        (list_type value : String) (params : Dict String) (w : Journal)
        → Known w
        → Answers (enlist l list_type value params w)
    unfolding enlist table_of statement is_known
    enlist-Known list_type value params w k = done_with-Known l _ _ _ (
        sent_on-Known _ w
          (if-elim (λ table. is_known (enlist_text table) ≡ true) (list_type == "white") _ _
            (λ _. refl) (λ _. refl))
          k)

    pub set_bw_list-Keeps : Keeps l (set_bw_list l r)
    unfolding set_bw_list change_list
    set_bw_list-Keeps = require_db-Keeps l _ (λ w k.
        let params = read_params r in
        let value = first_trimmed (
          param params "value"
          ∷ param params "ip"
          ∷ param params "domain"
          ∷ param params "target"
          ∷ []) in
        let op = first_trimmed (param params "op" ∷ param params "action" ∷ "add" ∷ []) in
        if-elim Answers (value == "") _ _ (λ _. k)
          (λ _.
            if-elim Answers (is_removal l op) _ _ (λ _. unlist-Known _ value w k)
              (λ _. enlist-Known _ value params w k)))
