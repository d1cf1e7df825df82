-- ===== src/Versioning/Router/Creation.antt =====
-- versioning.router.ts: what `POST /repos` leaves behind, whatever happens to the accounts meanwhile.
use deltix_server.Common.{
  ℕ, ◌≡◌, ap, ◌⊎◌, inl, inr, true, false, String, Option, none, some, ◌==◌, string_eq, any, Result,
  ok, err, arith, eq_iff, Bool-cases, Option-cases, Result-cases,
}
use deltix_server.Auth.Roles.{admin}
use deltix_server.Auth.Users.{get_repo_role, get_by_username, upsert_repo_role}
use deltix_server.Auth.Users.Laws.{get_repo_role-upsert}
use deltix_server.Auth.Service.{AuthState, AuthError, user_not_found, constraint_violation}
use deltix_server.Auth.Service.Accounts.{
  can_user_create_repos, grant_repo_admin_to_creator, grant_repo_role, user_exists, assignment,
}
use deltix_server.Table.Keys.{lookup-key}
use deltix_server.Versioning.Types.{RepoRecord, VersioningError}
use deltix_server.Versioning.Repos.{RepoStore, repo_key, provision, get}
use deltix_server.Versioning.Repos.Laws.{provision-Outcome, Outcome}
use deltix_server.Versioning.Router.{require_username}
use deltix_server.Versioning.Router.Serve.{
  Services, Server, Reply, answered, failed, repo, post_repos,
}

-- How the grant ended: the creator is administrator and the repository is the answer, or the account
-- that was there is gone, no role was granted, and the answer is the error 500.
abbrev pub Granted :
    {W : Type 0}
    → (username repo_id : String) → RepoRecord
    → (before : AuthState) → Reply × Server W
    → Type 0
Granted username repo_id r before (reply, s') =
    (get_repo_role username repo_id s'.accounts.db ≡ some admin) × (reply ≡ answered 201 (repo r))
    ⊎ (get_by_username username before.db ≡ none) × (reply ≡ failed 500) × (s'.accounts ≡ before)

module _ {W : Type 0} (v : Services W) (later : ℕ) where
  grant_cases :
      (username repo_id : String) (s : AuthState)
      → let (r, s') = grant_repo_admin_to_creator v.auth later repo_id username s in
        (((a : _) × (r ≡ ok a)) × (get_repo_role username repo_id s'.db ≡ some admin))
        ⊎ (get_by_username username s.db ≡ none) × ((e : AuthError) × (r ≡ err e)) × (s' ≡ s)
  unfolding grant_repo_admin_to_creator grant_repo_role user_exists upsert_repo_role
  grant_cases username repo_id s =
      let wanted = assignment username repo_id admin later "repo-bootstrap" in
      let legacy = any (λ (l : String × String). l.0 == username) v.auth.legacy_users in
      elim (Option-cases (upsert_repo_role v.auth.foreign_keys wanted s.db)) [
        | inr (db, e) ↦
            let seen = get_repo_role-upsert s.db v.auth.foreign_keys wanted username repo_id e in
            elim (Bool-cases (user_exists v.auth username s)) [
              | inl known ↦ inl (
                (wanted, ground (arith, e, known)),
                ground (arith, e, known, seen, eq_iff username username, eq_iff repo_id repo_id),
              )
              | inr unknown ↦ inr (
                no_account username s unknown,
                (user_not_found, ground (arith, unknown)),
                ground (arith, unknown),
              )
            ]
        | inl rejected ↦ elim (Option-cases (get_by_username username s.db)) [
          | inr (u, here) ↦ absurd (ground (arith, rejected, here))
          | inl missing ↦ elim (Bool-cases legacy) [
            | inl configured ↦ inr (
              missing,
              (constraint_violation, ground (arith, missing, configured, rejected)),
              ground (arith, missing, configured, rejected),
            )
            | inr unknown ↦ inr (
              missing,
              (user_not_found, ground (arith, missing, unknown)),
              ground (arith, missing, unknown),
            )
          ]
        ]
      ]
    where
      no_account :
          (username : String) (s : AuthState)
          → user_exists v.auth username s ≡ false
          → get_by_username username s.db ≡ none
      no_account username s h = elim (Option-cases (get_by_username username s.db)) [
        | inl missing ↦ missing
        | inr (u, here) ↦ absurd (ground (arith, h, here))
      ]

  -- When `POST /repos` stores a repository that was not there, the caller was logged in and, when it
  -- was tested, allowed to create repositories, and is named as its creator. Whatever happened to the accounts
  -- before the grant, the creator then has the role of administrator on it and is answered with the
  -- repository; or the creator's account was gone by then, the answer is 500, and no role was
  -- granted, though the repository stays stored.
  pub post_repos_outcome :
      (meanwhile : AuthState → AuthState) (now : ℕ) (token : Option String) (repo_id : String)
      (s : Server W) {r : RepoRecord}
      → get repo_id s.repos ≡ none
      → get repo_id (post_repos v meanwhile now later token (some repo_id) s).1.repos ≡ some r
      → (username : String) × (require_username v.verify_token token ≡ some username)
        × (can_user_create_repos username s.accounts ≡ true)
        × (r.created_by ≡ username)
        × Granted username repo_id r
            (meanwhile s.accounts)
            (post_repos v meanwhile now later token (some repo_id) s)
  unfolding post_repos get
  post_repos_outcome meanwhile now token repo_id s {r} new there =
      elim (Option-cases (require_username v.verify_token token)) [
        | inl nobody ↦ absurd (ground (arith, new, there, nobody))
        | inr (username, known) ↦ elim (Bool-cases (can_user_create_repos username s.accounts)) [
          | inr barred ↦ absurd (ground (arith, new, there, known, barred))
          | inl allowed ↦
              let made = provision v.provisioning now repo_id username s.repos in
              let outcome = provision-Outcome v.provisioning now repo_id username s.repos in
              elim (Result-cases made.0) [
                | inr (e, refused) ↦
                    let same = unchanged username made.0 made.1 refused outcome in
                    absurd
                      (ground (arith, new, there, known, allowed, refused, ap (get repo_id) same))
                | inl (record_of, fine) ↦
                    let (stored, creator, key) = stored_in username made.0 made.1 fine outcome in
                    let same : r ≡ record_of =
                      ground (arith, there, known, allowed, fine, stored) in
                    let of_key =
                      ap
                        (λ k.
                          grant_repo_admin_to_creator v.auth later k username
                            (meanwhile s.accounts))
                        key in
                    (
                      username,
                      known,
                      allowed,
                      ground (arith, ap (λ (q : RepoRecord). q.created_by) same, creator),
                      elim (grant_cases username repo_id (meanwhile s.accounts)) [
                        | inl ((a, granted), role) ↦ inl (
                          ground (arith, known, allowed, fine, of_key, role),
                          ground (arith, known, allowed, fine, of_key, granted, ap repo same),
                        )
                        | inr (gone, (e, failed_grant), same_accounts) ↦ inr (
                          gone,
                          ground (arith, known, allowed, fine, of_key, failed_grant),
                          ground (arith, known, allowed, fine, of_key, same_accounts),
                        )
                      ],
                    )
              ]
        ]
      ]
    where
      unchanged :
          (username : String) {e : VersioningError} (m : Result VersioningError RepoRecord)
          (t : RepoStore)
          → m ≡ err e
          → Outcome v.provisioning repo_id username s.repos (m, t)
          → t ≡ s.repos
      unchanged username (ok a) t q o = absurd (cc q)
      unchanged username (err e) t q o = o.0

      stored_in :
          (username : String) {a : RepoRecord} (m : Result VersioningError RepoRecord)
          (t : RepoStore)
          → m ≡ ok a
          → Outcome v.provisioning repo_id username s.repos (m, t)
          → (get repo_id t ≡ some a) × (a.created_by ≡ username) × (a.repo_id ≡ repo_id)
      stored_in username (err e) t q o = absurd (cc q)
      stored_in username {a} (ok b) t q o =
          let p = o.1 in
          ground (arith, q, p.stored, p.creator, lookup-key repo_key repo_id t.repos p.stored)
