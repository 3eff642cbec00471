-- ===== src/Store/Users/Changes.antt =====
-- internal/store/memory.go: what UpdateUser and DeleteUser do to the two maps of users.
use traffic_analysis.Base.{
  ℕ, true, String, Option, none, some, ◌≡◌, ◌≢◌, arith, ap, inl, inr, decide_eq,
}
use traffic_analysis.Dict.{get, put, delete}
use traffic_analysis.Dict.Laws.{
  get-put_self, get-put_ne, get-put-some, get-delete_self, get-delete_ne, get-delete-some,
}
use traffic_analysis.Value.{Fields}
use traffic_analysis.Domain.{User}
use traffic_analysis.Store.{MemoryStore}
use traffic_analysis.Store.Users.{
  get_user, get_user_by_username, patched_user, update_user, delete_user,
}
use traffic_analysis.Store.Users.Laws.{IsIndexed}

module _ (parse : String → Option ℕ) (now : ℕ) (id : String) (patch : Fields) (s : MemoryStore)
    {u : User} (found : get s.users_by_id id ≡ some u) where
  abbrev pub changed : User
  changed = patched_user parse now patch u

  pub update_user_found :
      update_user parse now id patch s
      ≡ (record s { users_by_id = put s.users_by_id id changed }, some changed)
  unfolding update_user
  update_user_found = rw (found, update_user)

  -- UpdateUser of a user who is there keeps the two maps each other's index.
  pub update_user_found-IsIndexed : IsIndexed s → IsIndexed (update_user parse now id patch s).0
  unfolding patched_user
  update_user_found-IsIndexed v = rw update_user_found (record {
    by_name = λ name j e.
        let (w, at_id, named) = v.by_name name j e in
        elim (decide_eq id j) [
          | inl same ↦ (
            changed,
            rw (← same) (get-put_self s.users_by_id id changed),
            cc (named, at_id, found, ap (get s.users_by_id) same),
          )
          | inr other ↦ (w, rw (get-put_ne s.users_by_id id j changed other) at_id, named)
        ];
    by_id = λ j w e. elim (get-put-some s.users_by_id id j changed w e) [
      | inl (i, same) ↦ rw (← same, ← i) (v.by_id id u found)
      | inr (i, old) ↦ v.by_id j w old
    ];
  })

module _ (id : String) (s : MemoryStore) {u : User} (found : get s.users_by_id id ≡ some u) where
  pub delete_user_found : delete_user id s ≡ (
    record s {
      users_by_username = delete s.users_by_username u.username;
      users_by_id = delete s.users_by_id id;
    },
    true,
  )
  unfolding delete_user
  delete_user_found = rw (found, delete_user)

  -- After DeleteUser of a user who is there, neither the id nor the user's name finds one.
  pub delete_user_found-gone :
      (get_user (delete_user id s).0 id ≡ none)
      × (get_user_by_username (delete_user id s).0 u.username ≡ none)
  unfolding get_user get_user_by_username
  delete_user_found-gone = rw delete_user_found (
      ground
        (arith, get-delete_self s.users_by_id id, get-delete_self s.users_by_username u.username))

  -- DeleteUser of a user who is there keeps the two maps each other's index.
  pub delete_user_found-IsIndexed : IsIndexed s → IsIndexed (delete_user id s).0
  delete_user_found-IsIndexed v = rw delete_user_found (record {
    by_name = λ name j e.
        let (n, old) = get-delete-some s.users_by_username u.username name j e in
        let (w, at_id, named) = v.by_name name j old in
        let other : id ≢ j = λ i. n (cc (named, at_id, found, ap (get s.users_by_id) i)) in
        (w, rw (get-delete_ne s.users_by_id id j other) at_id, named);
    by_id = λ j w e.
        let (i, old) = get-delete-some s.users_by_id id j w e in
        let (at_id, named) = v.by_id j w old in
        let other : u.username ≢ w.username =
          λ n. i (cc (named, (v.by_id id u found).1, ap (get s.users_by_username) n)) in
        (at_id, rw (get-delete_ne s.users_by_username u.username w.username other) named);
  })
