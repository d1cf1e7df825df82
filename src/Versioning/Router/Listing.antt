-- ===== src/Versioning/Router/Listing.antt =====
-- contexts/versioning/versioning.router.ts: the routes that answer with the visible repositories, the
-- log and a difference. A query that the schema refuses is `none`.
use deltix_server.Common.{
  ℕ, ◌≡◌, refl, Bool, true, ◌||◌, String, List, [], ◌∷◌, Option, none, some, if◌then◌else◌, Result,
  ok, err, min, ◌==◌, string_eq, All, inl, inr, Bool-cases,
}
use deltix_server.Auth.Roles.{RepoRole, reader}
use deltix_server.Auth.Users.{get_repo_role, is_some}
use deltix_server.Auth.Service.{AuthState}
use deltix_server.Auth.Service.Accounts.{is_global_admin}
use deltix_server.Transfer.Router.{TokenVerifier}
use deltix_server.Versioning.Types.{VersioningError, RepoRecord}
use deltix_server.Versioning.Repos.{RepoStore}
use deltix_server.Versioning.Cli.{Command}
use deltix_server.Versioning.History.{Limit, whole, other_number}
use deltix_server.Versioning.Router.{
  require_username, granted, denied, authorize_repo_request, handle_history_error,
}
use deltix_server.Versioning.History

-- An answer with a body, or the status of an error.
abbrev pub Answer : Type 0 → Type 0
Answer A = Result ℕ A

-- A repository with the caller's own role on it.
abbrev pub Visible : Type 0
Visible = RepoRecord × Option RepoRole

-- The loop over the repositories: `role || isGlobalAdmin`.
abbrev pub visible :
    (role_of : String → Option RepoRole) → (global : Bool) → List RepoRecord → List Visible
visible role_of global [] = []
visible role_of global (r ∷ repos) =
    if is_some (role_of r.repo_id) || global
    then (r, role_of r.repo_id) ∷ visible role_of global repos
    else visible role_of global repos

-- `repos` is what `provisioningService.list` answers with.
unfoldable pub get_repos :
    TokenVerifier
    → (token : Option String) → AuthState
    → (repos : List RepoRecord) → Answer (List Visible)
get_repos verify token s repos = elim (require_username verify token) [
  | none ↦ err 401
  | some username ↦
      ok (
        visible (λ repo_id. get_repo_role username repo_id s.db) (is_global_admin username s) repos)
]

abbrev pub answer_of : {A : Type 0} → Result VersioningError A → Answer A
answer_of (ok a) = ok a
answer_of (err e) = err (handle_history_error e)

-- `Math.min(query.limit ?? 50, 200)`; the schema lets no other number through.
abbrev pub shown_limit : Option Limit → ℕ
shown_limit (some (whole n)) = min n 200
shown_limit _ = 50

abbrev pub with_limit : {E : Type 0} → ℕ → Answer (List E) → Answer (List E × ℕ)
with_limit n (ok commits) = ok (commits, n)
with_limit n (err status) = err status

module _ {W E D : Type 0} (read_log : String → Option String → ℕ → Command W (List E))
    (read_diff : (path from_ref to_ref : String) → Command W D) (repos : RepoStore) where
  unfoldable pub respond_with_repo_log :
      (repo_id : String) → (branch : Option String) → Option Limit → W → Answer (List E × ℕ) × W
  respond_with_repo_log repo_id branch limit w =
      if repo_id == ""
      then (err 400, w)
      else let (r, w') = History.list read_log repos repo_id branch limit w in
        (with_limit (shown_limit limit) (answer_of r), w')

  unfoldable pub get_log :
      TokenVerifier
      → (token : Option String) → (repo_id : String) → AuthState
      → (query : Option (Option String × Option Limit)) → W
      → Answer (List E × ℕ) × W
  get_log verify token repo_id s query w =
      elim (authorize_repo_request verify token repo_id reader s) [
        | denied status ↦ (err status, w)
        | granted username role ↦ elim query [
          | none ↦ (err 400, w)
          | some (branch, limit) ↦ respond_with_repo_log repo_id branch limit w
        ]
      ]

  unfoldable pub get_diff :
      TokenVerifier
      → (token : Option String) → (repo_id : String) → AuthState
      → (query : Option (String × String)) → W
      → Answer D × W
  get_diff verify token repo_id s query w =
      elim (authorize_repo_request verify token repo_id reader s) [
        | denied status ↦ (err status, w)
        | granted username role ↦ elim query [
          | none ↦ (err 400, w)
          | some (from_ref, to_ref) ↦
              let (r, w') = History.read read_diff repos repo_id from_ref to_ref w in
              (answer_of r, w')
        ]
      ]

-- Every repository that the loop keeps carries the caller's role on it, and the caller is a global
-- administrator or has one.
visible-All :
    (role_of : String → Option RepoRole) (global : Bool) (repos : List RepoRecord)
    → All
        (λ (v : Visible). (v.1 ≡ role_of v.0.repo_id) × ((is_some v.1 || global) ≡ true))
        (visible role_of global repos)
visible-All role_of global [] = tt
visible-All role_of global (r ∷ repos) = elim (Bool-cases (is_some (role_of r.repo_id) || global)) [
  | inl kept ↦ rw (kept) ((refl, kept), visible-All role_of global repos)
  | inr dropped ↦ rw (dropped) (visible-All role_of global repos)
]
