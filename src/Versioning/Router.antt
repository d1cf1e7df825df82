-- ===== src/Versioning/Router.antt =====
-- contexts/versioning/versioning.router.ts: who may do what with a repository, and the status of each
-- error. A body is what the schema makes of the request, or nothing; a token is what follows
-- `Bearer ` in the header, trimmed, or nothing.
pub mod Serve
pub mod Listing
pub mod Guarded
pub mod Creation
use deltix_server.Common.{
  ℕ, Bool, true, false, not, ◌&&◌, ◌||◌, String, List, [], ◌∷◌, Option, none, some, if◌then◌else◌,
  ◌==◌, string_eq, leb, Result, ok, err, map,
}
use deltix_server.Auth.Roles.{RepoRole, reader, writer, admin, role_rank}
use deltix_server.Auth.Users.{get_repo_role}
use deltix_server.Auth.Service.{AuthState}
use deltix_server.Auth.Service.Accounts.{is_global_admin}
use deltix_server.Transfer.Router.{TokenVerifier}
use deltix_server.Versioning.Types.{
  VersioningError, invalid_repo_id, repo_already_provisioned, repo_not_found, constraint_violation,
  invalid_branch_name, protected_branch, invalid_commit_reference, invalid_pagination_limit,
  repo_provisioning_failed, branch_already_exists, branch_not_found, commit_failed,
  commit_import_error, sync_preference_conflict, non_fast_forward, merge_conflict, other_error,
}

-- `requireUsername` over `authenticate`: the subject of a valid token, when it is not empty.
unfoldable pub require_username : TokenVerifier → Option String → Option String
require_username verify none = none
require_username verify (some token) = if token == "" then none else elim (verify token) [
  | none ↦ none
  | some username ↦ if username == "" then none else some username
]

pub data Access : Type 0 where
  granted : (username : String) → (role : RepoRole) → Access
  denied : (status : ℕ) → Access

-- `role && ROLE_RANK[role] >= ROLE_RANK[minimumRole]`
unfoldable pub has_rank : Option RepoRole → RepoRole → Bool
unfolding role_rank
has_rank none minimum = false
has_rank (some role) minimum = leb (role_rank minimum) (role_rank role)

abbrev pub role_or_admin : Option RepoRole → RepoRole
role_or_admin none = admin
role_or_admin (some role) = role

abbrev pub rank_or_global :
    Option RepoRole → (global : Bool) → (as_global : RepoRole) → RepoRole → String → Access
rank_or_global role global as_global minimum username =
    if has_rank role minimum
    then granted username (role_or_admin role)
    else if global
    then granted username as_global
    else denied 403

unfoldable pub require_repo_role :
    TokenVerifier → Option String → (repo_id : String) → RepoRole → AuthState → Access
unfolding has_rank
require_repo_role verify token repo_id minimum s = elim (require_username verify token) [
  | none ↦ denied 401
  | some username ↦
      rank_or_global (get_repo_role username repo_id s.db) (is_global_admin username s) admin
        minimum username
]

unfoldable pub require_repo_role_or_global_admin :
    TokenVerifier → Option String → (repo_id : String) → RepoRole → AuthState → Access
unfolding has_rank
require_repo_role_or_global_admin verify token repo_id minimum s =
    elim (require_username verify token) [
      | none ↦ denied 401
      | some username ↦
          rank_or_global (get_repo_role username repo_id s.db) (is_global_admin username s)
            (role_or_admin (get_repo_role username repo_id s.db)) minimum username
    ]

-- `authorizeRepoRequest`: an empty identifier is as good as none.
unfoldable pub authorize_repo_request :
    TokenVerifier → Option String → (repo_id : String) → RepoRole → AuthState → Access
authorize_repo_request verify token repo_id minimum s =
    if repo_id == "" then denied 400 else require_repo_role verify token repo_id minimum s

unfoldable pub handle_branch_error : VersioningError → ℕ
handle_branch_error invalid_repo_id = 400
handle_branch_error invalid_branch_name = 400
handle_branch_error repo_not_found = 404
handle_branch_error (branch_not_found _) = 404
handle_branch_error (branch_already_exists _) = 409
handle_branch_error protected_branch = 409
handle_branch_error repo_already_provisioned = 409
handle_branch_error _ = 500

unfoldable pub handle_merge_error : VersioningError → ℕ
handle_merge_error invalid_repo_id = 400
handle_merge_error invalid_branch_name = 400
handle_merge_error repo_not_found = 404
handle_merge_error (branch_not_found _) = 404
handle_merge_error (merge_conflict _ _ _) = 409
handle_merge_error _ = 500

unfoldable pub handle_history_error : VersioningError → ℕ
handle_history_error invalid_repo_id = 400
handle_history_error invalid_branch_name = 400
handle_history_error invalid_commit_reference = 400
handle_history_error invalid_pagination_limit = 400
handle_history_error repo_not_found = 404
handle_history_error (branch_not_found _) = 404
handle_history_error _ = 500

unfoldable pub handle_sync_error : VersioningError → ℕ
handle_sync_error invalid_repo_id = 400
handle_sync_error repo_not_found = 404
handle_sync_error (sync_preference_conflict _) = 409
handle_sync_error _ = 500

unfoldable pub handle_commit_import_error : VersioningError → ℕ
handle_commit_import_error (commit_import_error _) = 400
handle_commit_import_error (non_fast_forward _ _) = 409
handle_commit_import_error _ = 500

-- The errors that `POST /repos` catches.
unfoldable pub handle_provision_error : VersioningError → ℕ
handle_provision_error invalid_repo_id = 400
handle_provision_error repo_already_provisioned = 409
handle_provision_error _ = 500
