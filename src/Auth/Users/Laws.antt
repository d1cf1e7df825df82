-- ===== src/Auth/Users/Laws.antt =====
-- What each statement of the user store does to a user's row and to a grant.
use mathlib.Core.Option
use deltix_server.Common.{
  ◌≡◌, refl, Bool, true, ◌&&◌, String, [], Option, none, some, string_eq, pair_eq, ◌==◌,
  if◌then◌else◌, arith, eq_iff, inl, inr, Option-cases, ◌∙◌, ◌⊎◌,
}
use deltix_server.Table.{update, find}
use deltix_server.Table.Keys.{
  Unique, meets, lookup, lookup-key, lookup-update, won-lookup, lookup-insert, lookup-delete,
  insert, insert-none, insert-some,
}
use deltix_server.Auth.Users.{
  UserRecord, RepoRoleAssignment, UserStore, name_of, grant_key, get_by_username, as_stored, create,
  try_create_first_user, update_user, delete_user, find_grant, get_repo_role, upsert_repo_role,
  regrant, delete_repo_role, is_some,
}

-- Both primary keys hold.
pub record IsValid (db : UserStore) : Type 0 where
  pub users_unique : Unique name_of db.users
  pub grants_unique : Unique grant_key db.repo_roles

module _ (db : UserStore) where
  pub get-username : (k : String) {u : UserRecord} → get_by_username k db ≡ some u → u.username ≡ k
  unfolding get_by_username
  get-username k h = lookup-key name_of k db.users h

  pub get-create :
      (u : UserRecord) (k : String) {db' : UserStore}
      → create u db ≡ some db'
      → get_by_username k db'
        ≡ (if u.username == k then some (as_stored u) else get_by_username k db)
  unfolding get_by_username create
  get-create u k {db'} h = elim (Option-cases (insert name_of (as_stored u) db.users)) [
    | inl taken ↦ absurd (ground (arith, taken))
    | inr (users, e) ↦ ground (arith, e, lookup-insert name_of (as_stored u) db.users k e)
  ]

  pub get-update_user :
      (f : UserRecord → UserRecord) (username k : String)
      → ((u : UserRecord) → (f u).username ≡ u.username)
      → get_by_username k (update_user f username db).1
        ≡ Option.map (λ u. if u.username == username && true then f u else u) (get_by_username k db)
  unfolding get_by_username update_user
  get-update_user f username k keep = lookup-update name_of _ f keep k db.users

  pub update_user-won :
      (f : UserRecord → UserRecord) (username : String)
      → IsValid db
      → (update_user f username db).0 ≡ is_some (get_by_username username db)
  unfolding get_by_username update_user
  update_user-won f username v =
      won-lookup name_of (λ u. true) username db.users v.users_unique
      ∙ present (lookup name_of username db.users)
    where
      present : (o : Option UserRecord) → meets (λ u. true) o ≡ is_some o
      present none = refl
      present (some u) = refl

  pub grant-key :
      (username repo : String) {a : RepoRoleAssignment}
      → find_grant username repo db ≡ some a
      → grant_key a ≡ (username, repo)
  unfolding find_grant
  grant-key username repo h = lookup-key grant_key (username, repo) db.repo_roles h

  upsert-eq-some :
      (foreign_keys : Bool) (a : RepoRoleAssignment) {db' : UserStore}
      → upsert_repo_role foreign_keys a db ≡ some db'
      → (lookup grant_key (grant_key a) db.repo_roles ≡ none)
          × (insert grant_key a db.repo_roles ≡ some db'.repo_roles)
        ⊎ ((b : RepoRoleAssignment) × (lookup grant_key (grant_key a) db.repo_roles ≡ some b)
            × (db'.repo_roles ≡ update (λ b. grant_key b == grant_key a) (regrant a) db.repo_roles))
  unfolding upsert_repo_role
  upsert-eq-some foreign_keys a {db'} h =
      elim (Option-cases (lookup grant_key (grant_key a) db.repo_roles)) [
        | inl free ↦ inl (free, ground (arith, insert-some grant_key a db.repo_roles free))
        | inr (b, taken) ↦
            inr (b, taken, ground (arith, insert-none grant_key a db.repo_roles taken))
      ]

  -- A grant sets the role of its user on its repo, and no other.
  pub get_repo_role-upsert :
      (foreign_keys : Bool) (a : RepoRoleAssignment) (username repo : String) {db' : UserStore}
      → upsert_repo_role foreign_keys a db ≡ some db'
      → get_repo_role username repo db' ≡ (
          if a.username == username && a.repo_id == repo
          then some a.role
          else get_repo_role username repo db)
  unfolding get_repo_role
  get_repo_role-upsert foreign_keys a username repo {db'} h =
      elim (upsert-eq-some foreign_keys a h) [
        | inl (free, e) ↦ ground (arith, lookup-insert grant_key a db.repo_roles (username, repo) e)
        | inr (b, taken, e) ↦ elim (Option-cases (find_grant username repo db)) [
          | inl missing ↦ ground (
            arith,
            e,
            lookup-update grant_key (λ b. grant_key b == grant_key a) (regrant a) (λ c. refl)
                (username, repo) db.repo_roles,
            taken,
            missing,
            eq_iff a.username username,
            eq_iff a.repo_id repo,
          )
          | inr (c, here) ↦ ground (
            arith,
            e,
            lookup-update grant_key (λ b. grant_key b == grant_key a) (regrant a) (λ c. refl)
                (username, repo) db.repo_roles,
            taken,
            here,
            grant-key username repo here,
            eq_iff a.username username,
            eq_iff a.repo_id repo,
            eq_iff c.username a.username,
            eq_iff c.repo_id a.repo_id,
          )
        ]
      ]

  -- A revocation takes the role of one user on one repo, and no other.
  pub get_repo_role-delete_repo_role :
      (username repo name id : String)
      → IsValid db
      → get_repo_role name id (delete_repo_role username repo db).1
        ≡ (if name == username && id == repo then none else get_repo_role name id db)
  unfolding get_repo_role delete_repo_role
  get_repo_role-delete_repo_role username repo name id v =
      elim (Option-cases (find_grant name id db)) [
        | inl missing ↦ ground (
          arith,
          lookup-delete grant_key (λ a. grant_key a == (username, repo)) (name, id) db.repo_roles
              v.grants_unique,
          missing,
        )
        | inr (a, here) ↦ ground (
          arith,
          lookup-delete grant_key (λ a. grant_key a == (username, repo)) (name, id) db.repo_roles
              v.grants_unique,
          here,
          grant-key name id here,
          eq_iff a.username username,
          eq_iff a.repo_id repo,
          eq_iff name username,
          eq_iff id repo,
        )
      ]

  pub delete_repo_role-won :
      (username repo : String)
      → IsValid db
      → (delete_repo_role username repo db).0 ≡ is_some (get_repo_role username repo db)
  unfolding get_repo_role delete_repo_role
  delete_repo_role-won username repo v = elim (Option-cases (find_grant username repo db)) [
    | inl missing ↦ ground (
      arith,
      won-lookup grant_key (λ a. true) (username, repo) db.repo_roles v.grants_unique,
      missing,
    )
    | inr (a, here) ↦ ground (
      arith,
      won-lookup grant_key (λ a. true) (username, repo) db.repo_roles v.grants_unique,
      here,
    )
  ]

  pub get-delete_user :
      (foreign_keys : Bool) (username k : String)
      → IsValid db
      → get_by_username k (delete_user foreign_keys username db).1
        ≡ (if k == username then none else get_by_username k db)
  unfolding get_by_username delete_user
  get-delete_user foreign_keys username k v = elim (Option-cases (get_by_username k db)) [
    | inl missing ↦ ground (
      arith,
      lookup-delete name_of (λ u. u.username == username) k db.users v.users_unique,
      missing,
    )
    | inr (u, here) ↦ ground (
      arith,
      lookup-delete name_of (λ u. u.username == username) k db.users v.users_unique,
      here,
      get-username k here,
      eq_iff u.username username,
      eq_iff k username,
    )
  ]

  pub delete_user-won :
      (foreign_keys : Bool) (username : String)
      → IsValid db
      → (delete_user foreign_keys username db).0 ≡ is_some (get_by_username username db)
  unfolding get_by_username delete_user
  delete_user-won foreign_keys username v = elim (Option-cases (get_by_username username db)) [
    | inl missing ↦
        ground (arith, won-lookup name_of (λ u. true) username db.users v.users_unique, missing)
    | inr (u, here) ↦
        ground (arith, won-lookup name_of (λ u. true) username db.users v.users_unique, here)
  ]

  -- The grants of a deleted user go with the account only where foreign keys are enforced.
  pub get_repo_role-delete_user :
      (foreign_keys : Bool) (username name repo : String)
      → IsValid db
      → get_repo_role name repo (delete_user foreign_keys username db).1
        ≡ (if foreign_keys && name == username then none else get_repo_role name repo db)
  unfolding get_repo_role delete_user
  get_repo_role-delete_user foreign_keys username name repo v =
      elim (Option-cases (find_grant name repo db)) [
        | inl missing ↦ ground (
          arith,
          lookup-delete grant_key (λ a. a.username == username) (name, repo) db.repo_roles
              v.grants_unique,
          missing,
        )
        | inr (a, here) ↦ ground (
          arith,
          lookup-delete grant_key (λ a. a.username == username) (name, repo) db.repo_roles
              v.grants_unique,
          here,
          grant-key name repo here,
          eq_iff a.username username,
          eq_iff name username,
        )
      ]

  -- On a store without users the first user is stored, and is the only one.
  pub get-try_create_first_user :
      (u : UserRecord) (k : String)
      → db.users ≡ []
      → (get_by_username k db ≡ none)
        × (get_by_username k (try_create_first_user u db).1
            ≡ (if u.username == k then some (as_stored u) else none))
  unfolding get_by_username try_create_first_user find
  get-try_create_first_user u k h = (ground (arith, h), ground (arith, h))
