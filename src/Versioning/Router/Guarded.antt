-- ===== src/Versioning/Router/Guarded.antt =====
-- Who gets past the guards, and that a refusal changes nothing.
use deltix_server.Common.{
  ℕ, ◌≡◌, refl, ap, ◌⊎◌, inl, inr, Bool, true, false, String, Option, some, ◌==◌, string_eq, arith,
  Bool-cases, Option-cases,
}
use deltix_server.Auth.Roles.{RepoRole, reader, writer, admin, role_rank}
use deltix_server.Auth.Users.{get_repo_role}
use deltix_server.Auth.Service.{AuthState}
use deltix_server.Auth.Service.Accounts.{is_global_admin}
use deltix_server.Transfer.Router.{TokenVerifier}
use deltix_server.Versioning.Router.{
  require_username, Access, granted, denied, has_rank, require_repo_role,
  require_repo_role_or_global_admin, authorize_repo_request,
}
use deltix_server.Versioning.Router.Serve.{
  Services, Server, failed, RepoRequest, get_repo, get_roles, get_branches, get_current_branch,
  get_preference, post_role, delete_role, post_branch, checkout_branch, delete_branch, post_merge,
  put_preference, dry_run_preference, push_commits, push_access, access_for, serve,
}

-- The role that each route is to ask for, as a table.
abbrev pub minimum : RepoRequest → RepoRole
minimum get_repo = reader
minimum get_roles = reader
minimum get_branches = reader
minimum get_current_branch = reader
minimum get_preference = admin
minimum (post_role _) = admin
minimum (delete_role _) = admin
minimum (post_branch _) = writer
minimum (checkout_branch _) = writer
minimum (delete_branch _) = admin
minimum (post_merge _) = writer
minimum (put_preference _) = admin
minimum (dry_run_preference _) = admin
minimum (push_commits _) = writer

abbrev pub is_push : RepoRequest → Bool
is_push (push_commits _) = true
is_push _ = false

-- A caller with a valid token whose role on the repository is high enough, or, on every route but
-- the one that takes commits, a global administrator.
abbrev pub Authorised :
    TokenVerifier → Option String → (repo_id : String) → RepoRequest → AuthState → Type 0
Authorised verify token repo_id request s =
    (username : String) × (require_username verify token ≡ some username)
    × ((has_rank (get_repo_role username repo_id s.db) (minimum request) ≡ true)
        ⊎ (is_push request ≡ false) × (is_global_admin username s ≡ true))

module _ (verify : TokenVerifier) (token : Option String) (repo_id : String) (s : AuthState) where
  role_Authorised :
      (request : RepoRequest) (m : RepoRole) {u : String} {r : RepoRole}
      → m ≡ minimum request
      → is_push request ≡ false
      → require_repo_role verify token repo_id m s ≡ granted u r
      → Authorised verify token repo_id request s
  unfolding require_repo_role
  role_Authorised request m {u} {r} e p h = elim (Option-cases (require_username verify token)) [
    | inl nobody ↦ absurd (ground (arith, h, nobody))
    | inr (username, known) ↦
        let at = ap (has_rank (get_repo_role username repo_id s.db)) e in
        elim (Bool-cases (has_rank (get_repo_role username repo_id s.db) m)) [
          | inl high ↦ (username, known, inl (ground (arith, at, high)))
          | inr low ↦ elim (Bool-cases (is_global_admin username s)) [
            | inl global ↦ (username, known, inr (p, global))
            | inr plain ↦ absurd (ground (arith, h, known, low, plain))
          ]
        ]
  ]

  global_Authorised :
      (request : RepoRequest) (m : RepoRole) {u : String} {r : RepoRole}
      → m ≡ minimum request
      → is_push request ≡ false
      → require_repo_role_or_global_admin verify token repo_id m s ≡ granted u r
      → Authorised verify token repo_id request s
  unfolding require_repo_role_or_global_admin
  global_Authorised request m {u} {r} e p h = elim (Option-cases (require_username verify token)) [
    | inl nobody ↦ absurd (ground (arith, h, nobody))
    | inr (username, known) ↦
        let at = ap (has_rank (get_repo_role username repo_id s.db)) e in
        elim (Bool-cases (has_rank (get_repo_role username repo_id s.db) m)) [
          | inl high ↦ (username, known, inl (ground (arith, at, high)))
          | inr low ↦ elim (Bool-cases (is_global_admin username s)) [
            | inl global ↦ (username, known, inr (p, global))
            | inr plain ↦ absurd (ground (arith, h, known, low, plain))
          ]
        ]
  ]

  asked_Authorised :
      (request : RepoRequest) {u : String} {r : RepoRole}
      → is_push request ≡ false
      → authorize_repo_request verify token repo_id (minimum request) s ≡ granted u r
      → Authorised verify token repo_id request s
  unfolding authorize_repo_request
  asked_Authorised request {u} {r} p h = elim (Bool-cases (repo_id == "")) [
    | inl empty ↦ absurd (ground (arith, h, empty))
    | inr named ↦
        role_Authorised request (minimum request) {u = u} {r = r} refl p (ground (arith, h, named))
  ]

  push_Authorised :
      (body : _) {u : String} {r : RepoRole}
      → push_access verify token repo_id s ≡ granted u r
      → Authorised verify token repo_id (push_commits body) s
  unfolding push_access has_rank role_rank
  push_Authorised body h = elim (Option-cases (require_username verify token)) [
    | inl nobody ↦ absurd (ground (arith, h, nobody))
    | inr (username, known) ↦ (username, known, inl (ground (arith, h, known)))
  ]

  access_for-Authorised :
      (request : RepoRequest) {u : String} {r : RepoRole}
      → access_for verify token repo_id request s ≡ granted u r
      → Authorised verify token repo_id request s
  unfolding access_for
  access_for-Authorised get_repo h = role_Authorised get_repo reader refl refl h
  access_for-Authorised get_roles h = global_Authorised get_roles reader refl refl h
  access_for-Authorised (post_role b) h = global_Authorised (post_role b) admin refl refl h
  access_for-Authorised (delete_role n) h = global_Authorised (delete_role n) admin refl refl h
  access_for-Authorised (push_commits b) h = push_Authorised b h
  access_for-Authorised get_branches h = asked_Authorised get_branches refl h
  access_for-Authorised get_current_branch h = asked_Authorised get_current_branch refl h
  access_for-Authorised get_preference h = asked_Authorised get_preference refl h
  access_for-Authorised (post_branch b) h = asked_Authorised (post_branch b) refl h
  access_for-Authorised (checkout_branch b) h = asked_Authorised (checkout_branch b) refl h
  access_for-Authorised (delete_branch b) h = asked_Authorised (delete_branch b) refl h
  access_for-Authorised (post_merge b) h = asked_Authorised (post_merge b) refl h
  access_for-Authorised (put_preference b) h = asked_Authorised (put_preference b) refl h
  access_for-Authorised (dry_run_preference b) h = asked_Authorised (dry_run_preference b) refl h

Access-cases :
    (a : Access) → ((n : ℕ) × (a ≡ denied n)) ⊎ ((u : String) × (r : RepoRole) × (a ≡ granted u r))
Access-cases (denied n) = inl (n, refl)
Access-cases (granted u r) = inr (u, r, refl)

module _ {W : Type 0} (v : Services W) (now : ℕ) (token : Option String) (repo_id : String)
    (request : RepoRequest) (s : Server W) where
  -- A request below a repository is refused with an error and changes nothing, or its caller has a
  -- valid token and the role that the route asks for on that repository. A global administrator
  -- needs no role, except on the route that takes commits.
  pub serve_guarded :
      Authorised v.verify_token token repo_id request s.accounts
      ⊎ ((status : ℕ) × (serve v now token repo_id request s ≡ (failed status, s)))
  unfolding serve
  serve_guarded = elim (Access-cases (access_for v.verify_token token repo_id request s.accounts)) [
    | inl (n, refused) ↦ inr (n, ground (arith, refused))
    | inr (u, r, passed) ↦
        inl (access_for-Authorised v.verify_token token repo_id s.accounts request passed)
  ]
