-- ===== src/Auth/Router/Laws.antt =====
-- Who may manage accounts, and that a global administrator remains.
use mathlib.Core.Option
use deltix_server.Common.{
  ℕ, ◌≡◌, ◌≤◌, refl, ap, sym, subst, ◌⊎◌, inl, inr, true, false, not, ◌&&◌, String, List, [], ◌∷◌,
  Option, none, some, if◌then◌else◌, ◌==◌, string_eq, leb, filter, length, arith, eq_iff,
  Bool-cases, Option-cases, All,
}
use deltix_server.Table.{find, update}
use deltix_server.Table.Keys.{
  lookup, Unique, insert, lookup-update, update-Unique, insert-Unique, lookup-insert, lookup-key,
}
use deltix_server.Auth.Users.{
  UserRecord, UserStore, name_of, get_by_username, update_user, with_active, with_global_admin,
  with_can_create_repos, set_active, create, as_stored, is_some,
}
use deltix_server.Auth.Service.{AuthState, Platform, AuthServiceConfig, admin_flag}
use deltix_server.Auth.Service.Accounts.{
  CreateUserInput, create_user, deactivate_user, reactivate_user, set_global_admin,
  set_can_create_repos, is_global_admin, build_user_record,
}
use deltix_server.Auth.Router.{
  authenticate_bearer_token, named, Meanwhile, AdminRequest, get_users, post_user, post_deactivate,
  post_reactivate, delete_user, post_global_admin, delete_global_admin, post_can_create_repos,
  delete_can_create_repos, remaining_admins, revoke_global_admin, manage, serve,
}
use deltix_server.Auth.Users

-- Some account is a global administrator, and names are unique.
abbrev pub HasAdmin : AuthState → Type 0
HasAdmin s = Unique name_of s.db.users × ((k : String) × (is_global_admin k s ≡ true))

-- A statement on accounts that keeps the names, and the flag of one account.
update_keeps :
    (f : UserRecord → UserRecord) (name k : String) (s : AuthState)
    → ((u : UserRecord) → (f u).username ≡ u.username)
    → ((u : UserRecord)
        → (u.username == name) ≡ true
        → u.username ≡ k
        → u.is_global_admin ≡ true
        → (f u).is_global_admin ≡ true)
    → Unique name_of s.db.users
    → is_global_admin k s ≡ true
    → HasAdmin (record s { db = (update_user f name s.db).1 })
unfolding is_global_admin get_by_username update_user
update_keeps f name k s keep flag unique h =
    (update-Unique name_of (λ u. u.username == name && true) f keep s.db.users unique, (k, held))
  where
    changed :
        lookup name_of k (update (λ u. u.username == name && true) f s.db.users)
        ≡ Option.map
            (λ u. if u.username == name && true then f u else u)
            (lookup name_of k s.db.users)
    changed = lookup-update name_of (λ u. u.username == name && true) f keep k s.db.users

    held :
        admin_flag (lookup name_of k (update (λ u. u.username == name && true) f s.db.users)) ≡ true
    held = elim (Option-cases (lookup name_of k s.db.users)) [
      | inl missing ↦ absurd (ground (arith, h, missing))
      | inr (u, here) ↦
          let key = lookup-key name_of k s.db.users here in
          let was : u.is_global_admin ≡ true = ground (arith, h, here) in
          elim (Bool-cases (u.username == name)) [
            | inl hit ↦ ground (arith, changed, here, hit, flag u hit key was)
            | inr other ↦ ground (arith, changed, here, other, was)
          ]
    ]

-- Another administrator, when more than one account has the flag.
only_one :
    (users : List UserRecord) (name : String)
    → Unique name_of users
    → find (λ u. u.is_global_admin && not (u.username == name)) users ≡ none
    → (length (filter (λ (u : UserRecord). u.is_global_admin) users) ≤ 1)
      × (lookup name_of name users ≡ none
          → length (filter (λ (u : UserRecord). u.is_global_admin) users) ≡ 0)
unfolding find
only_one [] name unique h = (omega arith, λ _. refl)
only_one (u ∷ users) name unique h = elim (Bool-cases (u.username == name)) [
  | inl same ↦
      let q = ap (λ k. lookup name_of k users) ((eq_iff u.username name).0 same) in
      ground (arith, only_one users name unique.1, same, h, unique.0, q)
  | inr other ↦ ground (arith, only_one users name unique.1, other, h)
]

another :
    (users : List UserRecord) (name : String)
    → Unique name_of users
    → leb (length (filter (λ (u : UserRecord). u.is_global_admin) users)) 1 ≡ false
    → (u : UserRecord) × (find (λ u. u.is_global_admin && not (u.username == name)) users ≡ some u)
another users name unique h =
    elim (Option-cases (find (λ u. u.is_global_admin && not (u.username == name)) users)) [
      | inl none_found ↦ absurd (ground (arith, h, only_one users name unique none_found))
      | inr found ↦ found
    ]

found_lookup :
    (users : List UserRecord) (name : String) {u : UserRecord}
    → Unique name_of users
    → find (λ u. u.is_global_admin && not (u.username == name)) users ≡ some u
    → (lookup name_of u.username users ≡ some u)
      × (u.is_global_admin ≡ true)
      × ((u.username == name) ≡ false)
unfolding find
found_lookup [] name unique h = absurd (cc h)
found_lookup (v ∷ users) name {u} unique h =
    elim (Bool-cases (v.is_global_admin && not (v.username == name))) [
      | inl hit ↦
          let same : v ≡ u = ground (arith, h, hit) in
          subst
            (λ (w : UserRecord).
              (lookup name_of w.username (v ∷ users) ≡ some w)
              × (w.is_global_admin ≡ true)
              × ((w.username == name) ≡ false))
            same
            (ground (arith, eq_iff v.username v.username), ground (arith, hit), ground (arith, hit))
      | inr miss ↦
          let rest = found_lookup users name {u = u} unique.1 (ground (arith, h, miss)) in
          let q = λ (e : v.username ≡ u.username). ap (λ k. lookup name_of k users) e in
          elim (Bool-cases (v.username == u.username)) [
            | inl clash ↦
                let e = (eq_iff v.username u.username).0 clash in
                absurd (ground (arith, rest, unique.0, q e))
            | inr apart ↦ ground (arith, rest, apart)
          ]
    ]

-- What keeps every administrator and the names unique: no demotion and no deletion.
abbrev pub KeepsAdmins : (AuthState → AuthState) → Type 0
KeepsAdmins f =
    (s : AuthState)
    → (Unique name_of s.db.users → Unique name_of (f s).db.users)
      × ((k : String) → is_global_admin k s ≡ true → is_global_admin k (f s) ≡ true)

module _ (p : Platform) (c : AuthServiceConfig) (salt : String) (now : ℕ) where
  revoke-HasAdmin :
      (m : AuthState → AuthState) (caller target : String) (s : AuthState)
      → KeepsAdmins m
      → Unique name_of s.db.users
      → is_global_admin caller s ≡ true
      → HasAdmin (revoke_global_admin p c salt now m caller target s).1
  unfolding revoke_global_admin remaining_admins set_global_admin Users.set_global_admin
      is_global_admin get_by_username
  revoke-HasAdmin m caller target s keeps unique h = elim (Bool-cases (target == caller)) [
    | inr other ↦
        rw (other, revoke_global_admin)
          (update_keeps (with_global_admin false) target caller s (λ u. refl)
            (λ u at is_k was.
              absurd
                (ground (arith, other, at, is_k, eq_iff u.username target, eq_iff target caller)))
            unique h)
    | inl same ↦
        elim (Bool-cases
          (leb (length (filter (λ (u : UserRecord). u.is_global_admin) s.db.users)) 1)) [
            | inl last_one ↦ rw (same, last_one, revoke_global_admin) (unique, (caller, h))
            | inr more ↦
                let (v, found) = another s.db.users target unique more in
                let (there, flag, apart) = found_lookup s.db.users target unique found in
                rw (same, more, revoke_global_admin)
                  (update_keeps (with_global_admin false) target v.username (m s) (λ u. refl)
                    (λ u at is_k was. absurd (
                      ground (
                        arith,
                        apart,
                        at,
                        is_k,
                        eq_iff u.username target,
                        eq_iff v.username target,
                      )))
                    ((keeps s).0 unique) ((keeps s).1 v.username (ground (arith, there, flag))))
          ]
  ]

  created-HasAdmin :
      (m : AuthState → AuthState) (caller : String) (input : CreateUserInput) (s : AuthState)
      → Unique name_of s.db.users
      → is_global_admin caller s ≡ true
      → HasAdmin (manage p c salt now m caller (post_user (some input)) s).1
  unfolding create_user build_user_record create is_global_admin get_by_username
  created-HasAdmin m caller input s unique h =
      elim (Option-cases (get_by_username input.username s.db)) [
        | inr (u, taken) ↦ becomes s (ground (arith, taken)) (unique, (caller, h))
        | inl free ↦
            let u = as_stored (
              build_user_record p salt now input.username input.password caller
                (Option.get_or input.is_global_admin false)
                (Option.get_or input.can_create_repos true)) in
            elim (Option-cases (insert name_of u s.db.users)) [
              | inl taken ↦ becomes s (ground (arith, free, taken)) (unique, (caller, h))
              | inr (users, added) ↦
                  becomes (record s { db = record s.db { users = users } })
                    (ground (arith, free, added))
                    (
                      insert-Unique name_of u s.db.users unique added,
                      (
                        caller,
                        ground (
                          arith,
                          lookup-insert name_of u s.db.users caller added,
                          free,
                          h,
                          eq_iff input.username caller,
                          ap (λ k. lookup name_of k s.db.users) {x = input.username} {y = caller},
                        ),
                      ),
                    )
            ]
      ]
    where
      becomes :
          (t : AuthState)
          → (manage p c salt now m caller (post_user (some input)) s).1 ≡ t
          → HasAdmin t
          → HasAdmin (manage p c salt now m caller (post_user (some input)) s).1
      becomes t e x = subst HasAdmin (sym e) x

  manage-HasAdmin :
      (m : AuthState → AuthState) (caller : String) (request : AdminRequest) (s : AuthState)
      → KeepsAdmins m
      → ((name : String) → ¬ (request ≡ delete_user name))
      → Unique name_of s.db.users
      → is_global_admin caller s ≡ true
      → HasAdmin (manage p c salt now m caller request s).1
  unfolding deactivate_user reactivate_user set_global_admin set_can_create_repos set_active
      Users.set_global_admin Users.set_can_create_repos
  manage-HasAdmin m caller get_users s keeps d unique h = (unique, (caller, h))
  manage-HasAdmin m caller (post_user none) s keeps d unique h = (unique, (caller, h))
  manage-HasAdmin m caller (post_user (some input)) s keeps d unique h =
      created-HasAdmin m caller input s unique h
  manage-HasAdmin m caller (post_deactivate name) s keeps d unique h =
      update_keeps (with_active false) name caller s (λ u. refl) (λ u _ _ was. was) unique h
  manage-HasAdmin m caller (post_reactivate name) s keeps d unique h =
      update_keeps (with_active true) name caller s (λ u. refl) (λ u _ _ was. was) unique h
  manage-HasAdmin m caller (delete_user name) s keeps d unique h = absurd (d name refl)
  manage-HasAdmin m caller (post_global_admin name) s keeps d unique h =
      update_keeps (with_global_admin true) name caller s (λ u. refl) (λ u _ _ was. refl) unique h
  manage-HasAdmin m caller (delete_global_admin name) s keeps d unique h =
      revoke-HasAdmin m caller name s keeps unique h
  manage-HasAdmin m caller (post_can_create_repos name) s keeps d unique h =
      update_keeps (with_can_create_repos true) name caller s (λ u. refl) (λ u _ _ was. was) unique
        h
  manage-HasAdmin m caller (delete_can_create_repos name) s keeps d unique h =
      update_keeps (with_can_create_repos false) name caller s (λ u. refl) (λ u _ _ was. was) unique
        h

-- A request with its token, the salt and the clock that it meets, and what happens meanwhile.
pub record Visit : Type 0 where
  pub token : Option String
  pub request : AdminRequest
  pub salt : String
  pub now : ℕ
  pub meanwhile : Meanwhile

-- The request deletes no account, and what happens meanwhile demotes and deletes none.
abbrev pub IsGentle : Visit → Type 0
IsGentle v =
    ((name : String) → ¬ (v.request ≡ delete_user name))
    × KeepsAdmins v.meanwhile.after_guard
    × KeepsAdmins v.meanwhile.after_count

module _ (p : Platform) (c : AuthServiceConfig) (verify : String → Option String) where
  abbrev pub serve_all : List Visit → AuthState → AuthState
  serve_all [] s = s
  serve_all (v ∷ vs) s =
      serve_all vs (serve p c v.salt v.now verify v.meanwhile v.token v.request s).1

  serve-HasAdmin :
      (v : Visit) (s : AuthState)
      → IsGentle v
      → HasAdmin s
      → HasAdmin (serve p c v.salt v.now verify v.meanwhile v.token v.request s).1
  unfolding serve
  serve-HasAdmin v s d h = elim (Option-cases (named (authenticate_bearer_token verify v.token))) [
    | inl nobody ↦ rw (nobody, serve) h
    | inr (caller, known) ↦ elim (Bool-cases (is_global_admin caller s)) [
      | inr plain ↦ rw (known, plain, serve) h
      | inl global ↦
          rw (known, global, serve)
            (manage-HasAdmin p c v.salt v.now v.meanwhile.after_count caller v.request
              (v.meanwhile.after_guard s) d.2 d.0 ((d.1 s).0 h.0) ((d.1 s).1 caller global))
    ]
  ]

  -- Where names are unique and there is a global administrator, one remains, whatever accounts the
  -- administrators create, deactivate, promote and demote, themselves included, as long as no account
  -- is deleted and nobody is demoted or deleted while another request is between its guard, its
  -- count of the administrators and its update.
  pub serve_all-HasAdmin :
      (visits : List Visit) (s : AuthState)
      → All IsGentle visits
      → HasAdmin s
      → HasAdmin (serve_all visits s)
  serve_all-HasAdmin [] s d h = h
  serve_all-HasAdmin (v ∷ vs) s d h =
      serve_all-HasAdmin vs (serve p c v.salt v.now verify v.meanwhile v.token v.request s).1 d.1
        (serve-HasAdmin v s d.0 h)

  -- A request to manage accounts changes nothing and is answered 401 or 403, or its token names a
  -- caller who is a global administrator.
  pub serve_admin_only :
      (v : Visit) (s : AuthState)
      → let out = serve p c v.salt v.now verify v.meanwhile v.token v.request s in
        ((out.1 ≡ s) × ((out.0 ≡ 401) ⊎ (out.0 ≡ 403)))
        ⊎ ((caller : String) × (named (authenticate_bearer_token verify v.token) ≡ some caller)
            × (is_global_admin caller s ≡ true))
  unfolding serve
  serve_admin_only v s = elim (Option-cases (named (authenticate_bearer_token verify v.token))) [
    | inl nobody ↦ inl (ground (arith, nobody), inl (ground (arith, nobody)))
    | inr (caller, known) ↦ elim (Bool-cases (is_global_admin caller s)) [
      | inr plain ↦ inl (ground (arith, known, plain), inr (ground (arith, known, plain)))
      | inl global ↦ inr (caller, known, global)
    ]
  ]
