-- ===== src/Api/Passwords.antt =====
-- internal/httpapi/server.go: who can log in, and what a new password does to the logins that
-- follow.
use traffic_analysis.Base.{
  Bool, true, false, String, Option, none, some, [], ◌∷◌, ◌==◌, if◌then◌else◌, if-false, ◌≡◌, ◌≢◌,
  ◌⊎◌, refl, ◌∙◌, arith, ap, inl, inr, eq_iff, Bool-cases, Option-cases,
}
use traffic_analysis.Dict.{get, put}
use traffic_analysis.Dict.Laws.{get-put_self}
use traffic_analysis.Value.{Fields, at, first_non_empty}
use traffic_analysis.Domain.{User}
use traffic_analysis.Store.{MemoryStore, Result-cases, ok}
use traffic_analysis.Store.Patch.{string_patch, bool_patch}
use traffic_analysis.Store.Users.{get_user, get_user_by_username, patched_user}
use traffic_analysis.Store.Users.Laws.{IsIndexed, get_user_by_username-some}
use traffic_analysis.Api.{
  Request, Credentials, Site, Server, store_of, reading_of, after, write_error, current_user,
  user_of, on_decoded_ok, on_decoded_err, text_at, plain_reply,
}
use traffic_analysis.Api.Accounts.{
  login, log_in, login_reply, refuses, change_user, change_password, change_password_of,
  password_patch, changed_reply,
}
use traffic_analysis.Api.Sessions.{login_missing, login_refused, login_accepted, change_user_found}

module _ (x : Site) where
  module _ (r : Request) (s : Server) where
    -- The three ways a login goes.
    data Outcome : Type 0 where
      unread : (e : String) → login x r s ≡ (s, write_error 400 e) → Outcome
      refused : login x r s ≡ (s, write_error 401 "用户名或密码错误") → Outcome
      accepted :
          (req : Credentials) (u : User)
          → x.decode_login r.body ≡ ok req
          → get_user_by_username (store_of s) req.username ≡ some u
          → refuses x req u ≡ false
          → login x r s ≡ log_in x u s
          → Outcome

    login-Outcome : Outcome
    unfolding login
    login-Outcome = elim (Result-cases (x.decode_login r.body)) [
      | inr (e, d) ↦ unread _ (on_decoded_err s _ d)
      | inl (req, d) ↦ elim (Option-cases (get_user_by_username (store_of s) req.username)) [
        | inl missing ↦ refused (login_missing x r s d missing)
        | inr (u, found) ↦ elim (Bool-cases (refuses x req u)) [
          | inl h ↦ refused (login_refused x r s d found h)
          | inr h ↦ accepted req u d found h (login_accepted x r s d found h)
        ]
      ]
    ]

    abbrev MayEnter : Credentials → User → Type 0
    MayEnter req u = (u.is_active ≡ true) × ((u.password ≡ "") ⊎ (req.password ≡ u.password))

    refuses-MayEnter : (req : Credentials) (u : User) → refuses x req u ≡ false → MayEnter req u
    unfolding refuses
    refuses-MayEnter req u h = ground (arith, eq_iff u.password "", eq_iff req.password u.password)

    -- A login that is answered with the code 200 named an active user and gave the user's password,
    -- where the user has one. Any other login leaves the server as it was.
    pub login-guarded :
        ((login x r s).1.code ≡ 200
          → (req : Credentials) × (u : User) × (x.decode_login r.body ≡ ok req)
            × (get_user_by_username (store_of s) req.username ≡ some u)
            × (u.is_active ≡ true)
            × ((u.password ≡ "") ⊎ (req.password ≡ u.password)))
        × ((login x r s).1.code ≢ 200 → (login x r s).0 ≡ s)
    unfolding write_error log_in login_reply plain_reply
    login-guarded = elim login-Outcome [
      | unread e same ↦ rw same (λ h. absurd (omega arith), λ h. refl)
      | refused same ↦ rw same (λ h. absurd (omega arith), λ h. refl)
      | accepted req u d found enters same ↦ rw same (
        λ h.
            let (active, same_password) = refuses-MayEnter req u enters in
            (req, u, d, found, active, same_password),
        λ h. absurd (h refl),
      )
    ]

  some_of_if :
      (b : Bool) (o : Option User) {u : User} → (if b then none else o) ≡ some u → o ≡ some u
  some_of_if true o e = absurd (cc e)
  some_of_if false o e = e

  user_of-found :
      (s : Server) (o : Option String) {u : User}
      → IsIndexed (store_of s)
      → user_of s o ≡ some u
      → get (store_of s).users_by_id u.user_id ≡ some u
  unfolding user_of get_user
  user_of-found s none v e = absurd (cc e)
  user_of-found s (some id) {u} v e = cc (e, ap (get (store_of s).users_by_id) (v.by_id id u e).0)

  -- Who a request's token leads to is found by the id too.
  current_user-found :
      (r : Request) (s : Server) {u : User}
      → IsIndexed (store_of s)
      → current_user x r s ≡ some u
      → get (store_of s).users_by_id u.user_id ≡ some u
  unfolding current_user
  current_user-found r s v who = user_of-found s _ v (some_of_if _ _ who)

  -- The code of a login of an active user with a password.
  login_code :
      (r : Request) (s : Server) {req : Credentials} {u : User}
      → x.decode_login r.body ≡ ok req
      → get_user_by_username (store_of s) req.username ≡ some u
      → u.is_active ≡ true
      → u.password ≢ ""
      → (login x r s).1.code ≡ (if req.password == u.password then 200 else 401)
  unfolding refuses log_in write_error login_reply plain_reply
  login_code r s {req} {u} decodes found active given =
      elim (Bool-cases (req.password == u.password)) [
        | inl e ↦
            rw (e, login_accepted x r s decodes found (ground (arith, eq_iff u.password ""))) refl
        | inr e ↦
            rw (e, login_refused x r s decodes found (ground (arith, eq_iff u.password ""))) refl
      ]

  module _ (r : Request) (s : Server) {u : User} {body : Fields} (v : IsIndexed (store_of s))
      (who : current_user x r s ≡ some u) (decodes : x.decode_map r.body ≡ ok body) where
    abbrev pub password : String
    password = first_non_empty (text_at x body "new_password" ∷ text_at x body "password" ∷ [])

    abbrev pub changed : User
    changed = patched_user x.parse_time (x.outside.now (reading_of s)) (password_patch x password) u

    change_password_found :
        password ≢ ""
        → (change_password x r s).0
          ≡ after
              (record (store_of s) { users_by_id = put (store_of s).users_by_id u.user_id changed })
              1
              s
    unfolding change_password change_password_of changed_reply
    change_password_found given =
        let asked : change_password x r s ≡ change_password_of x u s body =
          rw (change_password, who) (on_decoded_ok s _ decodes) in
        let let_through : change_password_of x u s body
            ≡ changed_reply x (change_user x u.user_id (password_patch x password) s) =
          if-false _ _ {b = password == ""} (ground (arith, eq_iff password "")) in
        rw
          (
            asked,
            let_through,
            change_user_found x u.user_id (password_patch x password) s
                (current_user-found r s v who),
          )
          refl

    abbrev changed_store : MemoryStore
    changed_store = record (store_of s) {
      users_by_id = put (store_of s).users_by_id u.user_id changed;
    }

    is_active-changed : changed.is_active ≡ u.is_active
    unfolding patched_user bool_patch password_patch at
    is_active-changed = refl

    password-changed : changed.password ≡ password
    unfolding patched_user string_patch password_patch at
    password-changed = refl

    change_password-found :
        password ≢ ""
        → get_user_by_username (store_of (change_password x r s).0) u.username ≡ some changed
    unfolding after
    change_password-found given =
        let at_id = current_user-found r s v who in
        let there = (v.by_id u.user_id u at_id).1 in
        rw (change_password_found given, get_user_by_username-some changed_store u.username there)
          (get-put_self (store_of s).users_by_id u.user_id changed)

    -- After a user has changed the password through a token to one that is not empty, a login with
    -- the user's name is answered with 200 where it gives the new password, and with 401 where it
    -- gives another. The user is active, and the two maps of users are each other's index.
    pub change_password-login :
        u.is_active ≡ true
        → password ≢ ""
        → (r' : Request) (req : Credentials) → x.decode_login r'.body ≡ ok req
        → req.username ≡ u.username
        → (login x r' (change_password x r s).0).1.code
          ≡ (if req.password == password then 200 else 401)
    change_password-login active given r' req reads named =
        rw
          (
            login_code r' (change_password x r s).0 {u = changed} reads
                (rw named (change_password-found given)) (is_active-changed ∙ active)
                (rw password-changed given),
            password-changed,
          )
          refl
