-- ===== src/Auth/Service/Grants.antt =====
-- Who gets and loses a role on a repo.
use deltix_server.Common.{
  ℕ, ◌≡◌, ◌≢◌, true, ◌&&◌, String, [], none, some, string_eq, ◌==◌, if◌then◌else◌, ok, err, arith,
  inl, inr, Option-cases, Result-cases, List-cases,
}
use deltix_server.Auth.Roles.{admin}
use deltix_server.Auth.Users.{
  RepoRoleAssignment, get_by_username, get_repo_role, upsert_repo_role, list_repo_roles, is_some,
}
use deltix_server.Auth.Users.Laws.{
  IsValid, get_repo_role-upsert, get_repo_role-delete_repo_role, delete_repo_role-won,
  get-delete_user, get_repo_role-delete_user,
}
use deltix_server.Auth.Sessions.Window.{IsOpen, count_active-pos}
use deltix_server.Auth.Sessions.{count_active_sessions_for_user}
use deltix_server.Auth.Service.{AuthState, repo_role_assignment_not_found, AuthServiceConfig}
use deltix_server.Auth.Service.Accounts.{
  parse_role, user_exists, grant_repo_role, revoke_repo_role, backfill_orphaned_repo_admin,
  remove_user, assignment,
}

module _ (c : AuthServiceConfig) (now : ℕ) (s : AuthState) where
  -- A grant that succeeds was of one of the three roles, to a user who is stored or configured; the
  -- user then has that role on that repo, and no other role of anyone has changed.
  pub grant_repo_role_sound :
      (username repo role by : String) (a : RepoRoleAssignment)
      → (grant_repo_role c now username repo role by s).0 ≡ ok a
      → (user_exists c username s ≡ true)
        × (parse_role role ≡ some a.role)
        × ((name id : String)
            → get_repo_role name id (grant_repo_role c now username repo role by s).1.db ≡ (
                if username == name && repo == id then some a.role else get_repo_role name id s.db))
  unfolding grant_repo_role
  grant_repo_role_sound username repo role by a h = elim (Option-cases (parse_role role)) [
    | inl bad ↦ absurd (ground (arith, bad))
    | inr (x, parsed) ↦
        let wanted = assignment username repo x now by in
        elim (Option-cases (upsert_repo_role c.foreign_keys wanted s.db)) [
          | inl rejected ↦ absurd (ground (arith, parsed, rejected))
          | inr (db, e) ↦ (
            ground (arith, parsed, e),
            ground (arith, parsed, e),
            λ name id.
                ground
                  (arith, parsed, e, get_repo_role-upsert s.db c.foreign_keys wanted name id e),
          )
        ]
  ]

  -- Where the primary keys hold, a revocation takes that role, is refused where there is none, and touches no other role.
  pub revoke_repo_role-exact :
      (username repo : String)
      → IsValid s.db
      → let (r, s') = revoke_repo_role username repo s in
        (r ≡ (
          if is_some (get_repo_role username repo s.db)
          then ok tt
          else err repo_role_assignment_not_found))
        × ((name id : String)
            → get_repo_role name id s'.db
              ≡ (if name == username && id == repo then none else get_repo_role name id s.db))
  unfolding revoke_repo_role
  revoke_repo_role-exact username repo v = (
    ground (arith, delete_repo_role-won s.db username repo v),
    λ name id. ground (arith, get_repo_role-delete_repo_role s.db username repo name id v),
  )

  -- The recovery of an orphaned repo does nothing to a repo on which anyone has a role; and when it
  -- grants, it makes the named, stored user the administrator and changes no other role.
  pub backfill_orphaned_repo_admin_sound :
      (repo username : String)
      → let (r, s') = backfill_orphaned_repo_admin c now repo username s in
        (list_repo_roles repo s.db ≢ [] → (r ≡ ok none) × (s' ≡ s))
        × ((a : RepoRoleAssignment)
            → r ≡ ok (some a)
            → (list_repo_roles repo s.db ≡ [])
              × (is_some (get_by_username username s.db) ≡ true)
              × ((name id : String)
                  → get_repo_role name id s'.db ≡ (
                      if username == name && repo == id
                      then some admin
                      else get_repo_role name id s.db)))
  unfolding backfill_orphaned_repo_admin
  backfill_orphaned_repo_admin_sound repo username = elim (List-cases (list_repo_roles repo s.db)) [
    | inr (x, xs, e) ↦
        (λ some_role. (ground (arith, e), ground (arith, e)), λ a h. absurd (ground (arith, e)))
    | inl e ↦ (
      λ some_role. absurd (some_role e),
      λ a h. elim (Option-cases (get_by_username username s.db)) [
        | inl missing ↦ absurd (ground (arith, e, missing))
        | inr (u, here) ↦
            let grant = grant_repo_role c now username repo "admin" "orphaned-repo-backfill" s in
            elim (Result-cases grant.0) [
              | inr (f, refused) ↦ absurd (ground (arith, e, here, refused))
              | inl (b, granted) ↦
                  let known =
                    grant_repo_role_sound username repo "admin" "orphaned-repo-backfill" b
                      granted in
                  (
                    e,
                    ground (arith, here),
                    λ name id. ground (arith, e, here, granted, known.2 name id, known.1),
                  )
            ]
      ],
    )
  ]

  -- Where the primary keys hold, a deletion that succeeds was of an account of which no token opens
  -- a session; the account is gone and no other has changed. Its roles go with it where the
  -- database enforces foreign keys; elsewhere they stay, for whoever takes the name next.
  pub remove_user_sound :
      (username : String)
      → IsValid s.db
      → (remove_user c now username s).0 ≡ ok tt
      → let s' = (remove_user c now username s).1 in
        ((token : String) → ¬ IsOpen now token username s.sessions)
        × ((k : String)
            → get_by_username k s'.db ≡ (if k == username then none else get_by_username k s.db))
        × ((name repo : String)
            → get_repo_role name repo s'.db
              ≡ (if c.foreign_keys && name == username then none else get_repo_role name repo s.db))
  unfolding remove_user
  remove_user_sound username v h =
      let gone = get-delete_user s.db c.foreign_keys username in
      (
        λ token o. ground (arith, count_active-pos now token username s.sessions o, idle h),
        λ k. ground (arith, idle h, gone k v),
        λ name repo.
            ground
              (arith, idle h, get_repo_role-delete_user s.db c.foreign_keys username name repo v),
      )
    where
      idle :
          (remove_user c now username s).0 ≡ ok tt
          → count_active_sessions_for_user username now s.sessions ≡ 0
      idle k = ground arith
