-- ===== src/Store/Users/Laws.antt =====
-- internal/store/memory.go: the two maps of users stay each other's index, and what the methods
-- on users give.
use traffic_analysis.Base.{
  ℕ, String, none, some, eq_iff, ◌≡◌, ◌≢◌, refl, arith, ap, inl, inr, inc64, [], Option-cases,
}
use traffic_analysis.Dict.{get, put}
use traffic_analysis.Dict.Laws.{get-put-some, get-put_self, get-put_ne}
use traffic_analysis.Domain.{User}
use traffic_analysis.Store.{MemoryStore, new_memory_store, admin, ok, err, default_text}
use traffic_analysis.Store.Users.{
  created_user, insert_user, create_user, get_user, get_user_by_username,
}

-- usersByUsername and usersByID are each other's index.
pub record IsIndexed (s : MemoryStore) : Type 0 where
  pub by_name :
      (name id : String)
      → get s.users_by_username name ≡ some id
      → (u : User) × (get s.users_by_id id ≡ some u) × (u.username ≡ name)
  pub by_id :
      (id : String) (u : User)
      → get s.users_by_id id ≡ some u
      → (u.user_id ≡ id) × (get s.users_by_username u.username ≡ some id)

module _ (s : MemoryStore) (name : String) where
  get_user_by_username-none :
      get s.users_by_username name ≡ none → get_user_by_username s name ≡ none
  unfolding get_user_by_username
  get_user_by_username-none e = rw (e, get_user_by_username) refl

  pub get_user_by_username-some :
      {id : String}
      → get s.users_by_username name ≡ some id
      → get_user_by_username s name ≡ get s.users_by_id id
  unfolding get_user_by_username
  get_user_by_username-some e = rw (e, get_user_by_username) refl

-- A user found by name is the one at its id, under its name.
pub get_user_by_username-IsIndexed :
    (s : MemoryStore) (name : String) {u : User}
    → IsIndexed s
    → get_user_by_username s name ≡ some u
    → (get s.users_by_id u.user_id ≡ some u)
      × (u.username ≡ name)
      × (get s.users_by_username name ≡ some u.user_id)
get_user_by_username-IsIndexed s name {u} v found =
    elim (Option-cases (get s.users_by_username name)) [
      | inl missing ↦ cc (found, get_user_by_username-none s name missing)
      | inr (id, there) ↦
          let at_id : get s.users_by_id id ≡ some u =
            cc (found, get_user_by_username-some s name there) in
          let (same, named) = v.by_id id u at_id in
          let (w, w_at_id, w_named) = v.by_name name id there in
          (cc (ap (get s.users_by_id) same), cc (at_id, w_at_id, w_named), cc (there, same))
    ]

module _ (s : MemoryStore) (seq : ℕ) (w : User) where
  get_user-insert_user :
      (get_user_by_username (insert_user s seq w) w.username ≡ some w)
      × (get_user (insert_user s seq w) w.user_id ≡ some w)
  unfolding get_user_by_username get_user insert_user
  get_user-insert_user = ground (
    arith,
    get-put_self s.users_by_username w.username w.user_id,
    get-put_self s.users_by_id w.user_id w,
  )

  insert_user-IsIndexed :
      IsIndexed s
      → get s.users_by_username w.username ≡ none
      → get s.users_by_id w.user_id ≡ none
      → IsIndexed (insert_user s seq w)
  unfolding insert_user
  insert_user-IsIndexed v free new = record {
    by_name = λ name id e. elim (get-put-some s.users_by_username w.username name w.user_id id e) [
      | inl (n, i) ↦ (w, rw (← i) (get-put_self s.users_by_id w.user_id w), n)
      | inr (n, old) ↦
          let (u, at_id, named) = v.by_name name id old in
          let other : w.user_id ≢ id = λ i. cc (ap (get s.users_by_id) i) in
          (u, rw (get-put_ne s.users_by_id w.user_id id w other) at_id, named)
    ];
    by_id = λ id u e. elim (get-put-some s.users_by_id w.user_id id w u e) [
      | inl (i, same) ↦ (
        cc (ap (λ (x : User). x.user_id) same),
        rw (← same, ← i) (get-put_self s.users_by_username w.username w.user_id),
      )
      | inr (i, old) ↦
          let (at_id, named) = v.by_id id u old in
          let other : w.username ≢ u.username = λ n. cc (ap (get s.users_by_username) n) in
          (at_id, rw (get-put_ne s.users_by_username w.username u.username w.user_id other) named)
    ];
  }

  get_user_by_username-replaced :
      (name : String)
      → w.username ≢ name
      → get s.users_by_username name ≡ some w.user_id
      → get_user_by_username (insert_user s seq w) name ≡ some w
  unfolding get_user_by_username insert_user
  get_user_by_username-replaced name other named = ground (
    arith,
    get-put_ne s.users_by_username w.username name w.user_id other,
    get-put_self s.users_by_id w.user_id w,
  )

default_text_given : (t d : String) → t ≢ "" → default_text t d ≡ t
unfolding default_text
default_text_given t d h = ground (arith, eq_iff t "")

module _ (now : ℕ) (fresh : String) (u : User) (s : MemoryStore) where
  abbrev pub stored : User
  stored = created_user now fresh (inc64 s.user_seq) u

  -- A taken name is refused, and the store stays as it is.
  pub create_user_taken :
      {id : String}
      → get s.users_by_username u.username ≡ some id
      → create_user now fresh u s ≡ (s, err "username already exists")
  unfolding create_user
  create_user_taken e = rw (e, create_user)

  pub create_user_free :
      get s.users_by_username u.username ≡ none
      → create_user now fresh u s ≡ (insert_user s (inc64 s.user_seq) stored, ok stored)
  unfolding create_user
  create_user_free e = rw (e, create_user)

  username-stored : stored.username ≡ u.username
  unfolding created_user
  username-stored = refl

  user_id-stored : stored.user_id ≡ default_text u.user_id fresh
  unfolding created_user
  user_id-stored = refl

  module _ (free : get s.users_by_username u.username ≡ none) where
    -- CreateUser with a free name gives the user that it stores, and that user is found under the
    -- name and under the id.
    get_user-create_user :
        ((create_user now fresh u s).1 ≡ ok stored)
        × (get_user_by_username (create_user now fresh u s).0 u.username ≡ some stored)
        × (get_user (create_user now fresh u s).0 stored.user_id ≡ some stored)
    unfolding created_user
    get_user-create_user =
        let (by_name, by_id) = get_user-insert_user s (inc64 s.user_seq) stored in
        rw (create_user_free free) (refl, by_name, by_id)

    -- CreateUser with a free name keeps the two maps each other's index, where the id that the user
    -- gets is free too.
    pub create_user-IsIndexed :
        IsIndexed s
        → get s.users_by_id (default_text u.user_id fresh) ≡ none
        → IsIndexed (create_user now fresh u s).0
    unfolding created_user
    create_user-IsIndexed v new =
        rw (create_user_free free) (insert_user-IsIndexed s (inc64 s.user_seq) stored v free new)

    -- CreateUser with a free name and an id that another name leads to is not refused: the other
    -- name then leads to the new user, who does not have it.
    pub create_user-takes_over :
        (name : String)
        → u.user_id ≢ ""
        → get s.users_by_username name ≡ some u.user_id
        → (get_user_by_username (create_user now fresh u s).0 name ≡ some stored)
          × (stored.username ≢ name)
    unfolding created_user
    create_user-takes_over name given named =
        let other : u.username ≢ name = λ e. cc (ap (get s.users_by_username) e) in
        let same : stored.user_id ≡ u.user_id = default_text_given u.user_id fresh given in
        (
          rw (create_user_free free) (
              get_user_by_username-replaced s (inc64 s.user_seq) stored name other (rw same named)),
          other,
        )

pub new_memory_store-IsIndexed : (now : ℕ) → IsIndexed (new_memory_store now)
unfolding new_memory_store get put admin
new_memory_store-IsIndexed now = record {
  by_name = λ name id e. elim (get-put-some [] "admin" name "admin" id e) [
    | inl (n, i) ↦ (admin now, rw (← i) refl, n)
    | inr (n, old) ↦ cc
  ];
  by_id = λ id u e. elim (get-put-some [] "admin" id (admin now) u e) [
    | inl (i, same) ↦ (rw (← same) i, rw (← same, ← i) refl)
    | inr (i, old) ↦ cc
  ];
}
