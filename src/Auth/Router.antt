-- ===== src/Auth/Router.antt =====
-- contexts/auth/auth.router.ts: the routes that manage accounts, which only a global administrator
-- may use. A body is what the schema makes of the request, or nothing; `verify` names the subject of
-- a valid token. The status 500 is an error that a route does not catch. What other requests do
-- between two statements of a route is a function on the accounts.
pub mod Laws
use deltix_server.Common.{
  ℕ, ◌≤◌, Bool, true, false, not, ◌&&◌, String, List, Option, none, some, if◌then◌else◌, ◌==◌,
  string_eq, leb, Result, ok, err, filter, length,
}
use deltix_server.Auth.Users.{UserRecord, UserStore}
use deltix_server.Auth.Service.{
  AuthState, AuthError, user_already_exists, user_not_found, user_has_active_sessions, Platform,
  AuthServiceConfig, Action,
}
use deltix_server.Auth.Service.Accounts.{
  CreateUserInput, create_user, deactivate_user, reactivate_user, remove_user, set_global_admin,
  set_can_create_repos, is_global_admin,
}

-- `authenticateBearerToken`, on what follows `Bearer ` in the header, trimmed.
unfoldable pub authenticate_bearer_token :
    (verify : String → Option String) → Option String → Option String
authenticate_bearer_token verify none = none
authenticate_bearer_token verify (some token) = if token == "" then none else verify token

-- `if (!username) return 401`: an empty subject is as good as none.
abbrev pub named : Option String → Option String
named none = none
named (some name) = if name == "" then none else some name

pub data AdminRequest : Type 0 where
  get_users : AdminRequest
  post_user : Option CreateUserInput → AdminRequest
  post_deactivate post_reactivate delete_user : String → AdminRequest
  post_global_admin delete_global_admin : String → AdminRequest
  post_can_create_repos delete_can_create_repos : String → AdminRequest

-- What the routes catch.
abbrev pub account_status : AuthError → ℕ
account_status AuthError.user_not_found = 404
account_status AuthError.user_has_active_sessions = 409
account_status AuthError.user_already_exists = 409
account_status _ = 500

abbrev pub status_of : {A : Type 0} → ℕ → Result AuthError A → ℕ
status_of status (ok a) = status
status_of status (err e) = account_status e

abbrev pub run_action : {A : Type 0} → ℕ → Action A → AuthState → ℕ × AuthState
run_action status m s = (status_of status (m s).0, (m s).1)

-- `users.filter((u) => u.isGlobalAdmin).length`
unfoldable pub remaining_admins : AuthState → ℕ
remaining_admins s = length (filter (λ (u : UserRecord). u.is_global_admin) s.db.users)

-- What other requests do to the accounts after the guard of a route, and after it has counted the
-- administrators.
pub record Meanwhile : Type 0 where
  pub after_guard : AuthState → AuthState
  pub after_count : AuthState → AuthState

module _ (p : Platform) (c : AuthServiceConfig) (salt : String) (now : ℕ) where
  -- `meanwhile` is what happens between the count and the update.
  unfoldable pub revoke_global_admin :
      (meanwhile : AuthState → AuthState) → (caller target : String) → AuthState → ℕ × AuthState
  unfolding remaining_admins
  revoke_global_admin meanwhile caller target s =
      if target == caller
      then if leb (remaining_admins s) 1
        then (409, s)
        else run_action 200 (set_global_admin target false) (meanwhile s)
      else run_action 200 (set_global_admin target false) s

  abbrev pub manage :
      (meanwhile : AuthState → AuthState)
      → (caller : String) → AdminRequest
      → AuthState
      → ℕ × AuthState
  manage meanwhile caller get_users s = (200, s)
  manage meanwhile caller (post_user none) s = (400, s)
  manage meanwhile caller (post_user (some input)) s =
      run_action 201 (create_user p salt now (record input { created_by = caller })) s
  manage meanwhile caller (post_deactivate name) s = run_action 200 (deactivate_user name) s
  manage meanwhile caller (post_reactivate name) s = run_action 200 (reactivate_user name) s
  manage meanwhile caller (delete_user name) s = run_action 200 (remove_user c now name) s
  manage meanwhile caller (post_global_admin name) s = run_action 200 (set_global_admin name true) s
  manage meanwhile caller (delete_global_admin name) s = revoke_global_admin meanwhile caller name s
  manage meanwhile caller (post_can_create_repos name) s =
      run_action 200 (set_can_create_repos name true) s
  manage meanwhile caller (delete_can_create_repos name) s =
      run_action 200 (set_can_create_repos name false) s

  unfoldable pub serve :
      (verify : String → Option String)
      → Meanwhile
      → (token : Option String) → AdminRequest
      → AuthState
      → ℕ × AuthState
  unfolding authenticate_bearer_token
  serve verify w token request s = elim (named (authenticate_bearer_token verify token)) [
    | none ↦ (401, s)
    | some caller ↦
        if is_global_admin caller s
        then manage w.after_count caller request (w.after_guard s)
        else (403, s)
  ]
