-- ===== src/Auth/Service.antt =====
-- contexts/auth/auth.service.ts and password-authenticator.ts. Password hashing and token signing
-- are third-party code and stand in `Platform`; readings of the clock, salts and random tokens are
-- arguments. A method is an action on the limiter's windows, the sessions and the user store.
mod Monad
pub mod Accounts
pub mod Login
pub mod Setup
pub mod Grants
pub use Monad.*
use deltix_server.Common.{
  ℕ, ◌+◌, Bool, true, false, not, ◌&&◌, ◌||◌, String, List, [], ◌∷◌, Option, none, some, string_eq,
  nat_eq, ◌==◌, ltb, if◌then◌else◌,
}
use deltix_server.Table.{find}
use deltix_server.Auth.Roles.{RepoRole, reader, writer, admin}
use deltix_server.Auth.Limiter.{Limits}
use deltix_server.Auth.Users.{
  UserRecord, RepoRoleAssignment, count, get_by_username, delete_user, try_create_first_user,
  set_global_admin, update_last_login, upsert_repo_role, delete_repo_role, list_repo_roles, is_some,
}
use mathlib.Core.Option
use deltix_server.Auth.Limiter
use deltix_server.Auth.Sessions
use deltix_server.Auth.Users

-- `Bun.password` and `jose`: the hash of a password under a salt, whether a password fits a hash,
-- and the signed token of a user at a time in seconds.
pub record Platform : Type 0 where
  pub hash_password : String → String → String
  pub verify_password : String → String → Bool
  pub sign_token : String → ℕ → ℕ → String

pub record AuthServiceConfig : Type 0 where
  pub access_token_ttl_seconds : ℕ
  pub session_ttl_seconds : ℕ
  pub limits : Limits
  pub bootstrap_admin_configured : Bool
  pub legacy_users : List (String × String)
  pub foreign_keys : Bool

pub record LoginResult : Type 0 where
  pub username : String
  pub access_token : String
  pub refresh_token : String
  pub expires_in_seconds : ℕ
  pub is_global_admin : Bool
  pub can_create_repos : Option Bool

abbrev pub dummy_hash : String
dummy_hash =
    "$argon2id$v=19$m=65536,t=2,p=1$AAAAAAAAAAAAAAAAAAAAAA$AAAAAAAAAAAAAAAAAAAAAAAAAAAAAAAAAAAAAAAAAAA"

-- The record that `findUserForLogin` makes up, with no `canCreateRepos`.
abbrev pub made_up : String → String → String → UserRecord
made_up username hash creator = record {
  username = username;
  password_hash = hash;
  created_at = 0;
  created_by = creator;
  active = true;
  last_login_at = none;
  is_global_admin = false;
  can_create_repos = none;
}

abbrev pub from_legacy : String → Option (String × String) → UserRecord
from_legacy username none = made_up username "" "unknown"
from_legacy username (some (name, hash)) = made_up name hash "legacy-env"

abbrev pub or_legacy : List (String × String) → String → Option UserRecord → UserRecord
or_legacy legacy username none = from_legacy username (find (λ l. l.0 == username) legacy)
or_legacy legacy username (some u) = u

unfoldable pub find_user_for_login : AuthServiceConfig → String → Action UserRecord
find_user_for_login c username =
    gets (λ s. or_legacy c.legacy_users username (get_by_username username s.db))

abbrev pub hash_or_dummy : Option UserRecord → String
hash_or_dummy none = dummy_hash
hash_or_dummy (some u) = u.password_hash

-- The hash that `verifyCredentials` compares with.
unfoldable pub hash_to_compare : String → List UserRecord → String
hash_to_compare username users = hash_or_dummy (find (λ u. u.username == username) users)

abbrev pub checked : Bool → Option UserRecord → Action String
checked valid none = raise invalid_credentials
checked valid (some u) = if valid then pure u.username else raise invalid_credentials

unfoldable pub verify_credentials : Platform → String → String → List UserRecord → Action String
unfolding hash_to_compare
verify_credentials p username password users =
    checked (p.verify_password password (hash_to_compare username users))
      (find (λ u. u.username == username) users)

pub record LoginClock : Type 0 where
  pub tested_at : ℕ
  pub counted_at : ℕ
  pub seen_at : ℕ
  pub token_seconds : ℕ
  pub session_at : ℕ
  pub stamp : ℕ

unfoldable pub login :
    Platform → AuthServiceConfig → LoginClock → String → String → String → Action LoginResult
login p c t token username password = do
  on_windows (Limiter.assert_allowed c.limits t.tested_at username)
  modify
      (λ s. record s { windows = Limiter.record_attempt c.limits t.counted_at username s.windows })
  user ← find_user_for_login c username
  raise_unless user.active user_inactive
  name ← verify_credentials p username password (user ∷ [])
  modify (λ s. record s { db = (update_last_login name t.seen_at s.db).1 })
  refresh ←
      on_sessions (Sessions.create_session c.session_ttl_seconds t.session_at t.stamp token name)
  pure (record {
    username = name;
    access_token = p.sign_token name t.token_seconds c.access_token_ttl_seconds;
    refresh_token = refresh;
    expires_in_seconds = c.access_token_ttl_seconds;
    is_global_admin = user.is_global_admin;
    can_create_repos = user.can_create_repos;
  })

unfoldable pub keep_alive : AuthServiceConfig → (now later : ℕ) → String → Action (Unit {0})
keep_alive c now later token =
    on_sessions (Sessions.keep_alive c.session_ttl_seconds now later token)

abbrev pub admin_flag : Option UserRecord → Bool
admin_flag none = false
admin_flag (some u) = u.is_global_admin

abbrev pub create_flag : Option UserRecord → Bool
create_flag none = false
create_flag (some u) = Option.get_or u.can_create_repos false

-- `refresh`: the clock is read for the name, for the heartbeat twice, and for the token.
unfoldable pub refresh :
    Platform
    → AuthServiceConfig
    → (now tested later token_seconds : ℕ) → String
    → Action LoginResult
refresh p c now tested later token_seconds token = do
  username ← lift_session (λ s. Sessions.username_for now token s.sessions)
  keep_alive c tested later token
  user ← gets (λ s. get_by_username username s.db)
  pure (record {
    username = username;
    access_token = p.sign_token username token_seconds c.access_token_ttl_seconds;
    refresh_token = token;
    expires_in_seconds = c.access_token_ttl_seconds;
    is_global_admin = admin_flag user;
    can_create_repos = some (create_flag user);
  })

unfoldable pub logout : String → Action (Unit {0})
logout token = modify (λ s. record s { sessions = Sessions.revoke token s.sessions })
