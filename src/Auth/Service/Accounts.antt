-- ===== src/Auth/Service/Accounts.antt =====
-- contexts/auth/auth.service.ts: the methods that manage accounts, the first administrator and the
-- roles on repos.
use mathlib.Core.Option
use deltix_server.Common.{
  ℕ, Bool, true, false, not, ◌||◌, String, Option, none, some, string_eq, nat_eq, ◌==◌, ltb,
  if◌then◌else◌, any, length, ok, err,
}
use deltix_server.Auth.Roles.{RepoRole, reader, writer, admin}
use deltix_server.Auth.Users.{
  UserRecord, UserStore, RepoRoleAssignment, count, get_by_username, delete_user,
  try_create_first_user, get_repo_role, upsert_repo_role, delete_repo_role, list_repo_roles,
  is_some,
}
use deltix_server.Auth.Service.{
  AuthState, AuthError, user_already_exists, user_not_found, user_has_active_sessions,
  setup_already_configured, invalid_repo_role, repo_role_assignment_not_found, constraint_violation,
  Action, pure, raise, gets, ◌>>=◌, ◌>>◌, raise_unless, modify, Platform, AuthServiceConfig,
  admin_flag,
}
use deltix_server.Auth.Sessions
use deltix_server.Auth.Users

-- `buildUserRecord`; the salt is drawn by the hash function.
unfoldable pub build_user_record :
    Platform
    → (salt : String) → (now : ℕ) → (username password created_by : String)
    → (is_global_admin can_create_repos : Bool) → UserRecord
build_user_record p salt now username password created_by is_global_admin can_create_repos =
    record {
      username = username;
      password_hash = p.hash_password salt password;
      created_at = now;
      created_by = created_by;
      active = true;
      last_login_at = none;
      is_global_admin = is_global_admin;
      can_create_repos = some can_create_repos;
    }

pub record CreateUserInput : Type 0 where
  pub username : String
  pub password : String
  pub created_by : String
  pub is_global_admin : Option Bool
  pub can_create_repos : Option Bool

-- An INSERT, where a key that is taken rejects.
abbrev pub insert_user : UserRecord → Action (Unit {0})
insert_user u s = elim (Users.create u s.db) [
  | none ↦ (err constraint_violation, s)
  | some db ↦ (ok tt, record s { db = db })
]

unfoldable pub create_user : Platform → String → ℕ → CreateUserInput → Action UserRecord
unfolding build_user_record
create_user p salt now input = do
  existing ← gets (λ s. get_by_username input.username s.db)
  raise_unless (not (is_some existing)) user_already_exists
  let user =
      build_user_record p salt now input.username input.password input.created_by
        (Option.get_or input.is_global_admin false) (Option.get_or input.can_create_repos true)
  insert_user user
  pure user

-- A statement on the user store whose `false` is `UserNotFoundError`.
abbrev pub or_not_found : (UserStore → Bool × UserStore) → AuthError → Action (Unit {0})
or_not_found f e s =
    let (done, db) = f s.db in (if done then ok tt else err e, record s { db = db })

unfoldable pub deactivate_user : String → Action (Unit {0})
deactivate_user username = or_not_found (Users.set_active username false) user_not_found

unfoldable pub reactivate_user : String → Action (Unit {0})
reactivate_user username = or_not_found (Users.set_active username true) user_not_found

unfoldable pub set_global_admin : String → Bool → Action (Unit {0})
set_global_admin username b = or_not_found (Users.set_global_admin username b) user_not_found

unfoldable pub set_can_create_repos : String → Bool → Action (Unit {0})
set_can_create_repos username b =
    or_not_found (Users.set_can_create_repos username b) user_not_found

unfoldable pub remove_user : AuthServiceConfig → ℕ → String → Action (Unit {0})
remove_user c now username = do
  active_sessions ← gets (λ s. Sessions.count_active_sessions_for_user username now s.sessions)
  raise_unless (not (ltb 0 active_sessions)) user_has_active_sessions
  or_not_found (delete_user c.foreign_keys username) user_not_found

unfoldable pub is_global_admin : String → AuthState → Bool
is_global_admin username s = admin_flag (get_by_username username s.db)

abbrev pub may_create : Option UserRecord → Bool
may_create none = false
may_create (some u) = u.is_global_admin || Option.get_or u.can_create_repos false

unfoldable pub can_user_create_repos : String → AuthState → Bool
can_user_create_repos username s = may_create (get_by_username username s.db)

pub data SetupStatus : Type 0 where
  not_configured users_exist bootstrap_env_configured : SetupStatus

abbrev pub is_eligible : SetupStatus → Bool
is_eligible not_configured = true
is_eligible _ = false

unfoldable pub get_setup_status : AuthServiceConfig → AuthState → SetupStatus
get_setup_status c s =
    if c.bootstrap_admin_configured
    then bootstrap_env_configured
    else if count s.db == 0
    then not_configured
    else users_exist

unfoldable pub setup_first_admin :
    Platform → AuthServiceConfig → String → ℕ → (username password : String) → Action UserRecord
unfolding build_user_record
setup_first_admin p c salt now username password = do
  status ← gets (get_setup_status c)
  raise_unless (is_eligible status) setup_already_configured
  let user = build_user_record p salt now username password "setup-wizard" true true
  or_not_found (try_create_first_user user) setup_already_configured
  pure user

abbrev pub promote : String → Option UserRecord → Action (Unit {0})
promote username none = pure tt
promote username (some u) =
    if u.is_global_admin
    then pure tt
    else modify (λ s. record s { db = (Users.set_global_admin username true s.db).1 })

-- `ensureBootstrapAdmin` with credentials; without any it does nothing.
unfoldable pub ensure_bootstrap_admin :
    Platform → String → ℕ → Option (String × String) → Action (Unit {0})
unfolding build_user_record
ensure_bootstrap_admin p salt now none = pure tt
ensure_bootstrap_admin p salt now (some (username, password)) = do
  n ← gets (λ s. count s.db)
  existing ← gets (λ s. get_by_username username s.db)
  if ltb 0 n
      then promote username existing
      else or_not_found
          (try_create_first_user
            (build_user_record p salt now username password "bootstrap-env" true true))
          setup_already_configured

-- `REPO_ROLES.includes(role)`.
abbrev pub parse_role : String → Option RepoRole
parse_role role =
    if role == "reader"
    then some reader
    else if role == "writer"
    then some writer
    else if role == "admin"
    then some admin
    else none

unfoldable pub user_exists : AuthServiceConfig → String → AuthState → Bool
user_exists c username s =
    is_some (get_by_username username s.db) || any (λ l. l.0 == username) c.legacy_users

abbrev pub valid_role : Option RepoRole → Action RepoRole
valid_role none = raise invalid_repo_role
valid_role (some role) = pure role

abbrev pub upsert : Bool → RepoRoleAssignment → Action (Unit {0})
upsert foreign_keys a s = elim (upsert_repo_role foreign_keys a s.db) [
  | none ↦ (err constraint_violation, s)
  | some db ↦ (ok tt, record s { db = db })
]

abbrev pub assignment : String → String → RepoRole → ℕ → String → RepoRoleAssignment
assignment username repo_id role now granted_by = record {
  username = username;
  repo_id = repo_id;
  role = role;
  granted_at = now;
  granted_by = granted_by;
}

unfoldable pub grant_repo_role :
    AuthServiceConfig → ℕ → (username repo_id role granted_by : String) → Action RepoRoleAssignment
grant_repo_role c now username repo_id role granted_by = do
  known ← gets (user_exists c username)
  raise_unless known user_not_found
  checked ← valid_role (parse_role role)
  let a = assignment username repo_id checked now granted_by
  upsert c.foreign_keys a
  pure a

unfoldable pub revoke_repo_role : String → String → Action (Unit {0})
revoke_repo_role username repo_id =
    or_not_found (delete_repo_role username repo_id) repo_role_assignment_not_found

unfoldable pub grant_repo_admin_to_creator :
    AuthServiceConfig → ℕ → String → String → Action RepoRoleAssignment
unfolding grant_repo_role
grant_repo_admin_to_creator c now repo_id username =
    grant_repo_role c now username repo_id "admin" "repo-bootstrap"

abbrev pub some_of : {A : Type 0} → Action A → Action (Option A)
some_of m = do a ← m; pure (some a)

unfoldable pub backfill_orphaned_repo_admin :
    AuthServiceConfig → ℕ → String → String → Action (Option RepoRoleAssignment)
unfolding grant_repo_role
backfill_orphaned_repo_admin c now repo_id username = do
  existing_roles ← gets (λ s. list_repo_roles repo_id s.db)
  bootstrap_admin ← gets (λ s. get_by_username username s.db)
  if ltb 0 (length existing_roles)
      then pure none
      else if is_some bootstrap_admin
      then some_of (grant_repo_role c now username repo_id "admin" "orphaned-repo-backfill")
      else pure none
