-- ===== src/Versioning/Router/Serve.antt =====
-- contexts/versioning/versioning.router.ts: the routes. A request that the schema refuses, or a name
-- that does not decode, is `none`.
use deltix_server.Common.{
  ℕ, Bool, true, false, String, List, Option, none, some, if◌then◌else◌, string_eq, Result, ok, err,
}
use deltix_server.Auth.Roles.{RepoRole, reader, writer, admin}
use deltix_server.Auth.Users.{RepoRoleAssignment, get_repo_role, list_repo_roles}
use deltix_server.Auth.Service.{AuthState, AuthServiceConfig, AuthError}
use deltix_server.Auth.Service.Accounts.{
  can_user_create_repos, grant_repo_role, revoke_repo_role, grant_repo_admin_to_creator,
}
use deltix_server.Transfer.Router.{TokenVerifier}
use deltix_server.Versioning.Types.{VersioningError, RepoRecord, RepoSyncPreference, Action}
use deltix_server.Versioning.Repos.{RepoStore, Provisioning, provision}
use deltix_server.Versioning.Branches.{BranchCli, BranchSummary, Created}
use deltix_server.Versioning.History.{MergeCli, MergeResult, merge}
use deltix_server.Versioning.Imports.{ImportCli, ImportedCommit, import_commits, CommitImportResult}
use deltix_server.Versioning.Preferences.{EdgeReader, SyncPlanRequest, SyncPlan, upsert, preview}
use deltix_server.Versioning.Router.{
  require_username, role_or_admin, Access, granted, denied, require_repo_role,
  require_repo_role_or_global_admin, authorize_repo_request, handle_branch_error,
  handle_merge_error, handle_sync_error, handle_commit_import_error, handle_provision_error,
}
use deltix_server.Versioning.Repos
use deltix_server.Versioning.Branches
use deltix_server.Versioning.Preferences

-- The services that the router is made with.
pub record Services (W : Type 0) : Type 0 where
  pub verify_token : TokenVerifier
  pub auth : AuthServiceConfig
  pub provisioning : Provisioning
  pub branches : BranchCli W
  pub merges : MergeCli W
  pub imports : ImportCli W
  pub read_edges : EdgeReader

pub record Server (W : Type 0) : Type 0 where
  pub accounts : AuthState
  pub repos : RepoStore
  pub world : W

-- The body of an answer that is no error.
pub data Body : Type 0 where
  no_content : Body
  repo : RepoRecord → Body
  roles : List RepoRoleAssignment → Body
  assignment : RepoRoleAssignment → Body
  branches : List BranchSummary → Body
  branch created_branch : String → Body
  merged : MergeResult → Body
  preference : Option RepoSyncPreference → Body
  plan : SyncPlan → Body
  commit_hash : String → Body

pub data Reply : Type 0 where
  answered : (status : ℕ) → Body → Reply
  failed : (status : ℕ) → Reply

abbrev pub reply_of :
    {A : Type 0} → (VersioningError → ℕ) → ℕ → (A → Body) → Result VersioningError A → Reply
reply_of handle status body (ok a) = answered status (body a)
reply_of handle status body (err e) = failed (handle e)

abbrev pub auth_reply : {A : Type 0} → (AuthError → ℕ) → ℕ → (A → Body) → Result AuthError A → Reply
auth_reply handle status body (ok a) = answered status (body a)
auth_reply handle status body (err e) = failed (handle e)

module _ {W A : Type 0} where
  -- A call of a service inside `try`, on the part of the server that the service keeps.
  abbrev pub in_world :
      (VersioningError → ℕ) → ℕ → (A → Body) → Action W A → Server W → Reply × Server W
  in_world handle status body m s =
      (reply_of handle status body (m s.world).0, record s { world = (m s.world).1 })

  abbrev pub in_repos :
      (VersioningError → ℕ) → ℕ → (A → Body) → Action RepoStore A → Server W → Reply × Server W
  in_repos handle status body m s =
      (reply_of handle status body (m s.repos).0, record s { repos = (m s.repos).1 })

abbrev pub role_error : AuthError → ℕ
role_error AuthError.invalid_repo_role = 400
role_error AuthError.user_not_found = 404
role_error _ = 500

abbrev pub revoke_error : AuthError → ℕ
revoke_error AuthError.repo_role_assignment_not_found = 404
revoke_error _ = 500

-- The routes below `/repos/:repoId`.
pub data RepoRequest : Type 0 where
  get_repo get_roles get_branches get_current_branch get_preference : RepoRequest
  post_role : Option (String × String) → RepoRequest
  delete_role : (username : String) → RepoRequest
  post_branch checkout_branch delete_branch : Option String → RepoRequest
  post_merge : Option (String × Option String) → RepoRequest
  put_preference dry_run_preference : Option SyncPlanRequest → RepoRequest
  push_commits : Option (List ImportedCommit × Option String × Option String) → RepoRequest

module _ {W : Type 0} (v : Services W) (now : ℕ) (repo_id : String) where
  abbrev pub found_repo : Option RepoRecord → Reply
  found_repo none = failed 404
  found_repo (some r) = answered 200 (repo r)

  abbrev pub grant_role : (by : String) → Option (String × String) → Server W → Reply × Server W
  grant_role by none s = (failed 400, s)
  grant_role by (some (username, wanted)) s =
      let (r, accounts) = grant_repo_role v.auth now username repo_id wanted by s.accounts in
      (auth_reply role_error 201 assignment r, record s { accounts = accounts })

  abbrev pub revoke_role : (username : String) → Server W → Reply × Server W
  revoke_role username s =
      let (r, accounts) = revoke_repo_role username repo_id s.accounts in
      (auth_reply revoke_error 204 (λ _. no_content) r, record s { accounts = accounts })

  abbrev pub create_branch : Option String → Server W → Reply × Server W
  create_branch none s = (failed 400, s)
  create_branch (some name) s =
      in_world handle_branch_error 201 (λ (b : Created). created_branch b.created)
        (Branches.create v.branches s.repos repo_id name) s

  abbrev pub switch_branch : Option String → Server W → Reply × Server W
  switch_branch none s = (failed 500, s)
  switch_branch (some name) s =
      in_world handle_branch_error 200 branch (Branches.checkout v.branches s.repos repo_id name) s

  abbrev pub drop_branch : Option String → Server W → Reply × Server W
  drop_branch none s = (failed 500, s)
  drop_branch (some name) s =
      in_world handle_branch_error 204 (λ _. no_content)
        (Branches.delete v.branches s.repos repo_id name) s

  abbrev pub merge_branches : Option (String × Option String) → Server W → Reply × Server W
  merge_branches none s = (failed 400, s)
  merge_branches (some (source, target)) s =
      in_world handle_merge_error 200 merged (merge v.merges s.repos repo_id source target) s

  abbrev pub save_preference : Option SyncPlanRequest → Server W → Reply × Server W
  save_preference none s = (failed 400, s)
  save_preference (some request) s =
      in_repos handle_sync_error 200 (λ p. preference (some p))
        (upsert v.read_edges now repo_id request) s

  abbrev pub plan_preference : Option SyncPlanRequest → Server W → Reply × Server W
  plan_preference none s = (failed 400, s)
  plan_preference (some request) s =
      in_repos handle_sync_error 200 plan (preview v.read_edges repo_id request) s

  -- `branch = DEFAULT_IMPORT_BRANCH` where none is given.
  abbrev pub branch_or_main : Option String → String
  branch_or_main none = "main"
  branch_or_main (some name) = name

  abbrev pub import_pushed :
      Option (List ImportedCommit × Option String × Option String) → Server W → Reply × Server W
  import_pushed none s = (failed 400, s)
  import_pushed (some (commits, base, name)) s =
      in_world handle_commit_import_error 201
        (λ (r : CommitImportResult). commit_hash r.commit_hash)
        (import_commits v.imports s.repos repo_id commits base (branch_or_main name)) s

  abbrev pub perform : (username : String) → RepoRequest → Server W → Reply × Server W
  perform username get_repo s = (found_repo (Repos.get repo_id s.repos), s)
  perform username get_roles s = (answered 200 (roles (list_repo_roles repo_id s.accounts.db)), s)
  perform username get_branches s =
      in_world handle_branch_error 200 branches (Branches.list v.branches s.repos repo_id) s
  perform username get_current_branch s =
      in_world handle_branch_error 200 branch (Branches.current v.branches s.repos repo_id) s
  perform username get_preference s =
      (reply_of handle_sync_error 200 preference (Preferences.get repo_id s.repos), s)
  perform username (post_role body) s = grant_role username body s
  perform username (delete_role name) s = revoke_role name s
  perform username (post_branch body) s = create_branch body s
  perform username (checkout_branch name) s = switch_branch name s
  perform username (delete_branch name) s = drop_branch name s
  perform username (post_merge body) s = merge_branches body s
  perform username (put_preference body) s = save_preference body s
  perform username (dry_run_preference body) s = plan_preference body s
  perform username (push_commits body) s = import_pushed body s

-- `!role || (role !== 'writer' && role !== 'admin')` refuses.
abbrev pub writes : Option RepoRole → Bool
writes none = false
writes (some reader) = false
writes (some writer) = true
writes (some admin) = true

abbrev pub push_rank : Option RepoRole → String → Access
push_rank role username = if writes role then granted username (role_or_admin role) else denied 403

unfoldable pub push_access : TokenVerifier → Option String → (repo_id : String) → AuthState → Access
push_access verify token repo_id s = elim (require_username verify token) [
  | none ↦ denied 401
  | some username ↦ push_rank (get_repo_role username repo_id s.db) username
]

-- The guard at the top of each route.
unfoldable pub access_for :
    TokenVerifier → Option String → (repo_id : String) → RepoRequest → AuthState → Access
unfolding require_repo_role require_repo_role_or_global_admin authorize_repo_request push_access
access_for verify token repo_id get_repo s = require_repo_role verify token repo_id reader s
access_for verify token repo_id get_roles s =
    require_repo_role_or_global_admin verify token repo_id reader s
access_for verify token repo_id (post_role _) s =
    require_repo_role_or_global_admin verify token repo_id admin s
access_for verify token repo_id (delete_role _) s =
    require_repo_role_or_global_admin verify token repo_id admin s
access_for verify token repo_id (push_commits _) s = push_access verify token repo_id s
access_for verify token repo_id get_branches s =
    authorize_repo_request verify token repo_id reader s
access_for verify token repo_id get_current_branch s =
    authorize_repo_request verify token repo_id reader s
access_for verify token repo_id get_preference s =
    authorize_repo_request verify token repo_id admin s
access_for verify token repo_id (post_branch _) s =
    authorize_repo_request verify token repo_id writer s
access_for verify token repo_id (checkout_branch _) s =
    authorize_repo_request verify token repo_id writer s
access_for verify token repo_id (delete_branch _) s =
    authorize_repo_request verify token repo_id admin s
access_for verify token repo_id (post_merge _) s =
    authorize_repo_request verify token repo_id writer s
access_for verify token repo_id (put_preference _) s =
    authorize_repo_request verify token repo_id admin s
access_for verify token repo_id (dry_run_preference _) s =
    authorize_repo_request verify token repo_id admin s

unfoldable pub serve :
    {W : Type 0}
    → Services W
    → (now : ℕ) → (token : Option String) → (repo_id : String) → RepoRequest
    → Server W
    → Reply × Server W
serve v now token repo_id request s =
    elim (access_for v.verify_token token repo_id request s.accounts) [
      | denied status ↦ (failed status, s)
      | granted username role ↦ perform v now repo_id username request s
    ]

-- `POST /repos`: `meanwhile` is what other requests do to the accounts between the permission's test
-- and the grant.
abbrev pub provision_for :
    {W : Type 0}
    → Services W
    → (meanwhile : AuthState → AuthState) → (now later : ℕ) → (username repo_id : String) → Server W
    → Reply × Server W
provision_for v meanwhile now later username repo_id s =
    let (r, repos) = provision v.provisioning now repo_id username s.repos in
    elim r [
      | err e ↦ (
        failed (handle_provision_error e),
        record s { repos = repos; accounts = meanwhile s.accounts },
      )
      | ok made ↦
          let (a, accounts) =
            grant_repo_admin_to_creator v.auth later made.repo_id username (meanwhile s.accounts) in
          (
            auth_reply (λ _. 500) 201 (λ _. repo made) a,
            record s { repos = repos; accounts = accounts },
          )
    ]

unfoldable pub post_repos :
    {W : Type 0}
    → Services W
    → (meanwhile : AuthState → AuthState) → (now later : ℕ) → (token : Option String)
    → (body : Option String) → Server W
    → Reply × Server W
post_repos v meanwhile now later token body s = elim (require_username v.verify_token token) [
  | none ↦ (failed 401, s)
  | some username ↦
      if can_user_create_repos username s.accounts
      then elim body [
        | none ↦ (failed 400, s)
        | some repo_id ↦ provision_for v meanwhile now later username repo_id s
      ]
      else (failed 403, s)
]
