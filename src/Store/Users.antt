-- ===== src/Store/Users.antt =====
-- internal/store/memory.go: the methods on users.
pub mod Laws
pub mod Changes
use traffic_analysis.Base.{
  ℕ, Bool, true, false, String, Option, none, some, List, [], ◌∷◌, inc64, less64,
}
use traffic_analysis.Base.Sort.{sort_by}
use traffic_analysis.Dict.{Dict, get, put, delete}
use traffic_analysis.Value.{Fields}
use traffic_analysis.Domain.{User}
use traffic_analysis.Store.{MemoryStore, Result, ok, err, default_text, default_number}
use traffic_analysis.Store.Patch.{string_patch, bool_patch, time_patch, patched}

-- The user that CreateUser stores.
unfoldable pub created_user : ℕ → String → ℕ → User → User
created_user now fresh seq u = record u {
  user_id = default_text u.user_id fresh;
  id = seq;
  is_active = true;
  role = default_text u.role "user";
  created_at = default_number u.created_at now;
  updated_at = now;
}

pub insert_user : MemoryStore → ℕ → User → MemoryStore
insert_user s seq u = record s {
  user_seq = seq;
  users_by_id = put s.users_by_id u.user_id u;
  users_by_username = put s.users_by_username u.username u.user_id;
}

unfoldable pub create_user : ℕ → String → User → MemoryStore → MemoryStore × Result User
unfolding insert_user
create_user now fresh u s = elim (get s.users_by_username u.username) [
  | some id ↦ (s, err "username already exists")
  | none ↦
      let u' = created_user now fresh (inc64 s.user_seq) u in
      (insert_user s (inc64 s.user_seq) u', ok u')
]

unfoldable pub get_user_by_username : MemoryStore → String → Option User
get_user_by_username s username = elim (get s.users_by_username username) [
  | none ↦ none
  | some id ↦ get s.users_by_id id
]

unfoldable pub get_user : MemoryStore → String → Option User
get_user s user_id = get s.users_by_id user_id

-- The values of a map, in the order of the visit.
unfoldable pub visited {ℓ} : {V : Type ℓ} → Dict V → List String → List V
visited m [] = []
visited m (k ∷ ks) = let rest = visited m ks in elim (get m k) [ none ↦ rest | some v ↦ v ∷ rest ]

unfoldable pub user_before : User → User → Bool
user_before a b = less64 a.id b.id

unfoldable pub list_users : List String → MemoryStore → List User
list_users visit s = sort_by user_before (visited s.users_by_id visit)

abbrev or_else {ℓ} : {A : Type ℓ} → Option A → Option A → Option A
or_else none old = old
or_else (some t) old = some t

unfoldable pub patched_user : (String → Option ℕ) → ℕ → Fields → User → User
patched_user parse now patch u = record u {
  nickname = patched (string_patch patch "nickname") u.nickname;
  email = patched (string_patch patch "email") u.email;
  phone = patched (string_patch patch "phone") u.phone;
  role = patched (string_patch patch "role") u.role;
  is_active = patched (bool_patch patch "is_active") u.is_active;
  password = patched (string_patch patch "password") u.password;
  last_login_at = or_else (time_patch parse patch "last_login_at") u.last_login_at;
  updated_at = now;
}

unfoldable pub update_user :
    (String → Option ℕ) → ℕ → String → Fields → MemoryStore → MemoryStore × Option User
update_user parse now user_id patch s = elim (get s.users_by_id user_id) [
  | none ↦ (s, none)
  | some u ↦
      let u' = patched_user parse now patch u in
      (record s { users_by_id = put s.users_by_id user_id u' }, some u')
]

unfoldable pub delete_user : String → MemoryStore → MemoryStore × Bool
delete_user user_id s = elim (get s.users_by_id user_id) [
  | none ↦ (s, false)
  | some u ↦ (
    record s {
      users_by_username = delete s.users_by_username u.username;
      users_by_id = delete s.users_by_id user_id;
    },
    true,
  )
]
