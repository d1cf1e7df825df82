-- ===== src/Auth/Service/Setup.antt =====
-- How the first administrator comes to be.
use deltix_server.Common.{
  ℕ, ◌≡◌, ◌≢◌, ◌⊎◌, refl, true, false, ◌||◌, String, [], some, string_eq, nat_eq, ◌==◌, ok, err,
  arith, eq_iff, inl, inr, Option-cases, Bool-cases, List-cases,
}
use deltix_server.Auth.Users.{
  count, get_by_username, try_create_first_user, set_global_admin, with_global_admin, is_some,
}
use deltix_server.Auth.Users.Laws.{get-update_user, get-username, get-try_create_first_user}
use deltix_server.Auth.Service.{AuthState, setup_already_configured, Platform, AuthServiceConfig}
use deltix_server.Auth.Service.Accounts.{
  get_setup_status, setup_first_admin, build_user_record, ensure_bootstrap_admin, is_global_admin,
}

module _ (p : Platform) (c : AuthServiceConfig) (salt : String) (now : ℕ) where
  -- The setup succeeds exactly on a store without users where no administrator is configured, and
  -- is otherwise refused with nothing changed. A success answers with the record built
  -- from the input; the user is then a stored global administrator, and in the state that the
  -- success leaves a setup under any name is refused with nothing changed.
  pub setup_first_admin-once :
      (username password : String) (s : AuthState)
      → let (r, s') = setup_first_admin p c salt now username password s in
        ((c.bootstrap_admin_configured ≡ false)
          × (s.db.users ≡ [])
          × (r ≡ ok (build_user_record p salt now username password "setup-wizard" true true))
          × (is_global_admin username s' ≡ true)
          × ((salt' : String) (later : ℕ) (name pass : String)
              → setup_first_admin p c salt' later name pass s'
                ≡ (err setup_already_configured, s')))
        ⊎ (((c.bootstrap_admin_configured ≡ true) ⊎ (s.db.users ≢ []))
            × (r ≡ err setup_already_configured)
            × (s' ≡ s))
  unfolding setup_first_admin get_setup_status is_global_admin build_user_record count
      try_create_first_user
  setup_first_admin-once username password s = elim (Bool-cases c.bootstrap_admin_configured) [
    | inl configured ↦ inr (inl configured, ground (arith, configured), ground (arith, configured))
    | inr unconfigured ↦ elim (List-cases s.db.users) [
      | inr (u, us, e) ↦ inr (
        inr (λ empty. ground (arith, e, empty)),
        ground (arith, unconfigured, e),
        ground (arith, unconfigured, e),
      )
      | inl e ↦
          let first =
            get-try_create_first_user s.db
              (build_user_record p salt now username password "setup-wizard" true true) username
              e in
          inl (
            unconfigured,
            e,
            ground (arith, unconfigured, e),
            ground (arith, unconfigured, e, eq_iff username username, first.1),
            λ salt' later name pass. ground (arith, unconfigured, e),
          )
    ]
  ]

  -- At startup the configured administrator is made a global administrator if the account exists,
  -- is created as one if there are no users at all, and is otherwise not created. No other account
  -- changes.
  pub ensure_bootstrap_admin-outcome :
      (username password : String) (s : AuthState)
      → let (r, s') = ensure_bootstrap_admin p salt now (some (username, password)) s in
        (r ≡ ok tt)
        × (is_global_admin username s'
            ≡ (is_some (get_by_username username s.db) || count s.db == 0))
        × ((k : String) → k ≢ username → get_by_username k s'.db ≡ get_by_username k s.db)
  unfolding ensure_bootstrap_admin is_global_admin set_global_admin count build_user_record
      try_create_first_user
  ensure_bootstrap_admin-outcome username password s = elim (List-cases s.db.users) [
    | inl e ↦
        let first =
          get-try_create_first_user s.db
            (build_user_record p salt now username password "bootstrap-env" true true) in
        (
          ground (arith, e),
          ground (arith, e, eq_iff username username, (first username e).1),
          λ k other. ground (arith, e, eq_iff username k, (first k e).0, (first k e).1),
        )
    | inr (u, us, e) ↦
        let promoted = get-update_user s.db (with_global_admin true) username in
        elim (Option-cases (get_by_username username s.db)) [
          | inl missing ↦ (
            ground (arith, e, missing),
            ground (arith, e, missing),
            λ k other. ground (arith, e, missing),
          )
          | inr (a, here) ↦ elim (Bool-cases a.is_global_admin) [
            | inl already ↦ (
              ground (arith, e, here, already),
              ground (arith, e, here, already),
              λ k other. ground (arith, e, here, already),
            )
            | inr ordinary ↦ (
              ground (arith, e, here, ordinary),
              ground (
                arith,
                e,
                here,
                ordinary,
                promoted username (λ x. refl),
                get-username s.db username here,
                eq_iff a.username username,
              ),
              λ k other. ground (arith, e, here, ordinary, kept k other),
            )
          ]
        ]
  ]
    where
      kept :
          (k : String)
          → k ≢ username
          → get_by_username k (set_global_admin username true s.db).1 ≡ get_by_username k s.db
      kept k other = elim (Option-cases (get_by_username k s.db)) [
        | inl missing ↦
            ground
              (arith, missing, get-update_user s.db (with_global_admin true) username k (λ x. refl))
        | inr (a, here) ↦ ground (
          arith,
          here,
          get-update_user s.db (with_global_admin true) username k (λ x. refl),
          get-username s.db k here,
          eq_iff a.username username,
        )
      ]
