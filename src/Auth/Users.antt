-- ===== src/Auth/Users.antt =====
-- contexts/auth/libsql-user-store.ts: the tables `users` and `repo_roles`. `foreign_keys` says
-- whether the connection enforces the FOREIGN KEY of `repo_roles`, which the code leaves to the
-- database's default.
pub mod Laws
use deltix_server.Common.{
  ℕ, Bool, true, false, not, ◌&&◌, String, List, [], ◌∷◌, ◌++◌, Option, none, some, string_eq,
  nat_eq, pair_eq, ◌==◌, if◌then◌else◌, length, filter,
}
use deltix_server.Table.{update, affected, delete}
use deltix_server.Table.Keys.{lookup, insert}
use deltix_server.Auth.Roles.{RepoRole}

-- `can_create_repos` is `none` where the property is absent.
pub record UserRecord : Type 0 where
  pub username : String
  pub password_hash : String
  pub created_at : ℕ
  pub created_by : String
  pub active : Bool
  pub last_login_at : Option ℕ
  pub is_global_admin : Bool
  pub can_create_repos : Option Bool

pub record RepoRoleAssignment : Type 0 where
  pub username : String
  pub repo_id : String
  pub role : RepoRole
  pub granted_at : ℕ
  pub granted_by : String

pub record UserStore : Type 0 where
  pub users : List UserRecord
  pub repo_roles : List RepoRoleAssignment

abbrev pub name_of : UserRecord → String
name_of u = u.username

abbrev pub grant_key : RepoRoleAssignment → String × String
grant_key a = (a.username, a.repo_id)

unfoldable pub count : UserStore → ℕ
count db = length db.users

unfoldable pub get_by_username : String → UserStore → Option UserRecord
get_by_username username db = lookup name_of username db.users

-- The column is 1 only for a property that is true.
abbrev pub stored_flag : Option Bool → Option Bool
stored_flag none = some false
stored_flag (some b) = some b

abbrev pub as_stored : UserRecord → UserRecord
as_stored u = record u { can_create_repos = stored_flag u.can_create_repos }

unfoldable pub create : UserRecord → UserStore → Option UserStore
create u db = elim (insert name_of (as_stored u) db.users) [
  | none ↦ none
  | some users ↦ some (record db { users = users })
]

-- `UPDATE users SET f WHERE username = ?`.
unfoldable pub update_user : (UserRecord → UserRecord) → String → UserStore → Bool × UserStore
update_user f username db = (
  affected (λ u. u.username == username && true) db.users == 1,
  record db { users = update (λ u. u.username == username && true) f db.users },
)

abbrev pub with_active : Bool → UserRecord → UserRecord
with_active b u = record u { active = b }

abbrev pub with_global_admin : Bool → UserRecord → UserRecord
with_global_admin b u = record u { is_global_admin = b }

abbrev pub with_can_create_repos : Bool → UserRecord → UserRecord
with_can_create_repos b u = record u { can_create_repos = some b }

abbrev pub with_last_login : ℕ → UserRecord → UserRecord
with_last_login t u = record u { last_login_at = some t }

unfoldable pub set_active : String → Bool → UserStore → Bool × UserStore
set_active username b db = update_user (with_active b) username db

unfoldable pub set_global_admin : String → Bool → UserStore → Bool × UserStore
set_global_admin username b db = update_user (with_global_admin b) username db

unfoldable pub set_can_create_repos : String → Bool → UserStore → Bool × UserStore
set_can_create_repos username b db = update_user (with_can_create_repos b) username db

unfoldable pub update_last_login : String → ℕ → UserStore → Bool × UserStore
update_last_login username t db = update_user (with_last_login t) username db

-- `DELETE FROM users`, with ON DELETE CASCADE where it is enforced.
unfoldable pub delete_user : Bool → String → UserStore → Bool × UserStore
delete_user foreign_keys username db = (
  affected (λ u. u.username == username && true) db.users == 1,
  record {
    users = delete (λ u. u.username == username) db.users;
    repo_roles =
        if foreign_keys then delete (λ a. a.username == username) db.repo_roles else db.repo_roles;
  },
)

-- `INSERT … WHERE NOT EXISTS (SELECT 1 FROM users)`, one statement.
unfoldable pub try_create_first_user : UserRecord → UserStore → Bool × UserStore
try_create_first_user u db = elim db.users [
  | [] ↦ (true, record db { users = as_stored u ∷ [] })
  | _ ∷ _ ↦ (false, db)
]

unfoldable pub find_grant : String → String → UserStore → Option RepoRoleAssignment
find_grant username repo_id db = lookup grant_key (username, repo_id) db.repo_roles

abbrev pub role_of : Option RepoRoleAssignment → Option RepoRole
role_of none = none
role_of (some a) = some a.role

unfoldable pub get_repo_role : String → String → UserStore → Option RepoRole
unfolding find_grant
get_repo_role username repo_id db = role_of (find_grant username repo_id db)

-- The rows of `listRepoRoles`; their order by name is left out.
unfoldable pub list_repo_roles : String → UserStore → List RepoRoleAssignment
list_repo_roles repo_id db = filter (λ a. a.repo_id == repo_id) db.repo_roles

abbrev pub is_some {ℓ} : {A : Type ℓ} → Option A → Bool
is_some none = false
is_some (some a) = true

abbrev pub regrant : RepoRoleAssignment → RepoRoleAssignment → RepoRoleAssignment
regrant a b = record b { role = a.role; granted_at = a.granted_at; granted_by = a.granted_by }

-- `INSERT … ON CONFLICT DO UPDATE`; `none` is a violated FOREIGN KEY.
unfoldable pub upsert_repo_role : Bool → RepoRoleAssignment → UserStore → Option UserStore
upsert_repo_role foreign_keys a db =
    if foreign_keys && not (is_some (get_by_username a.username db))
    then none
    else elim (insert grant_key a db.repo_roles) [
      | some rows ↦ some (record db { repo_roles = rows })
      | none ↦ some (record db {
        repo_roles = update (λ b. grant_key b == grant_key a) (regrant a) db.repo_roles;
      })
    ]

unfoldable pub delete_repo_role : String → String → UserStore → Bool × UserStore
delete_repo_role username repo_id db = (
  affected (λ a. grant_key a == (username, repo_id) && true) db.repo_roles == 1,
  record db { repo_roles = delete (λ a. grant_key a == (username, repo_id)) db.repo_roles },
)
