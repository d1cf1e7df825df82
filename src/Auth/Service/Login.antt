-- ===== src/Auth/Service/Login.antt =====
-- Who can log in, what a login leaves behind, and who can refresh.
use deltix_server.Common.{
  ℕ, ◌+◌, ◌*◌, ◌≤◌, ◌≡◌, ◌≢◌, refl, ◌⊎◌, Bool, true, false, String, [], ◌∷◌, none, some, string_eq,
  ◌==◌, ok, err, arith, eq_iff, inl, inr, Option-cases, Result-cases,
}
use deltix_server.Table.{find}
use deltix_server.Table.Keys.{find-holds}
use deltix_server.Auth.Limiter.Bounds.{attempt}
use deltix_server.Auth.Limiter.{assert_allowed}
use deltix_server.Auth.Sessions.{token_of}
use deltix_server.Auth.Sessions.Window.{
  IsOpen, create_session-open, username_for_iff, keep_alive_slides,
}
use deltix_server.Auth.Users.{UserRecord, get_by_username}
use deltix_server.Auth.Users.Laws.{get-username}
use deltix_server.Auth.Service.{
  AuthState, too_many_login_attempts, Platform, AuthServiceConfig, LoginResult, LoginClock,
  or_legacy, find_user_for_login, hash_to_compare, verify_credentials, login, keep_alive, refresh,
  dummy_hash, admin_flag, create_flag,
}
use deltix_server.Auth.Service.Accounts.{deactivate_user}
use deltix_server.Auth.Sessions

-- The account that a login is checked against: stored, from the environment, or made up.
abbrev pub candidate : AuthServiceConfig → String → AuthState → UserRecord
candidate c username s = or_legacy c.legacy_users username (get_by_username username s.db)

candidate-username :
    (c : AuthServiceConfig) (username : String) (s : AuthState)
    → (candidate c username s).username ≡ username
candidate-username c username s = elim (Option-cases (get_by_username username s.db)) [
  | inr (u, e) ↦ ground (arith, e, get-username s.db username e)
  | inl missing ↦
      elim (Option-cases (find (λ (l : String × String). l.0 == username) c.legacy_users)) [
        | inl unknown ↦ ground (arith, missing, unknown)
        | inr (l, e) ↦ ground (
          arith,
          missing,
          e,
          find-holds (λ (l : String × String). l.0 == username) c.legacy_users e,
          eq_iff l.0 username,
        )
      ]
]

module _ (p : Platform) (c : AuthServiceConfig) (t : LoginClock) (token username password : String)
    (s : AuthState) where
  -- Every login goes through the limiter first, whatever becomes of it: it leaves the windows as
  -- the limiter's attempt does, and is refused where the attempt is.
  pub login-attempt :
      ((login p c t token username password s).1.windows
        ≡ (attempt c.limits t.tested_at t.counted_at username s.windows).1)
      × ((attempt c.limits t.tested_at t.counted_at username s.windows).0 ≡ false
          → (login p c t token username password s).0 ≡ err too_many_login_attempts)
  unfolding login attempt verify_credentials find_user_for_login
  login-attempt = elim (Result-cases (assert_allowed c.limits t.tested_at username s.windows).0) [
    | inr (e, refused) ↦ (ground (arith, refused), ground (arith, refused))
    | inl (a, allowed) ↦ (ground (arith, allowed), ground (arith, allowed))
  ]

  login_checked :
      (r : LoginResult)
      → (login p c t token username password s).0 ≡ ok r
      → ((candidate c username s).active ≡ true)
        × (p.verify_password password (candidate c username s).password_hash ≡ true)
        × (r.username ≡ username)
        × (r.is_global_admin ≡ (candidate c username s).is_global_admin)
        × ((now : ℕ)
            → now ≤ t.session_at + c.session_ttl_seconds * 1000
            → Sessions.username_for now r.refresh_token
                (login p c t token username password s).1.sessions
              ≡ ok username)
  unfolding login verify_credentials find_user_for_login find
  login_checked r h =
      elim (Result-cases (assert_allowed c.limits t.tested_at username s.windows).0) [
        | inr (e, refused) ↦ absurd (ground (arith, refused))
        | inl (a, allowed) ↦
            let same = candidate-username c username s in
            let key = eq_iff (candidate c username s).username username in
            elim (Result-cases
              (Sessions.create_session c.session_ttl_seconds t.session_at t.stamp token username
                s.sessions).0) [
                  | inr (e, taken) ↦ absurd (ground (arith, allowed, same, key, taken))
                  | inl (k, made) ↦
                      let made_open =
                        create_session-open c.session_ttl_seconds t.session_at t.stamp token
                          username k s.sessions made in
                      (
                        ground (arith, allowed, same),
                        ground (arith, allowed, same, key),
                        ground (arith, allowed, same, key, made),
                        ground (arith, allowed, same, key, made),
                        λ now early.
                            ground (arith, allowed, same, key, made, made_open.0, made_open.1 now),
                      )
                ]
      ]

  -- What the password was checked against: the hash of a stored and active account, a configured
  -- user's hash, or, for a name that is neither, the empty text.
  abbrev pub CheckedAgainst : (admin : Bool) → Type 0
  CheckedAgainst admin =
      ((u : UserRecord) × (get_by_username username s.db ≡ some u)
        × (u.active ≡ true)
        × (p.verify_password password u.password_hash ≡ true)
        × (admin ≡ u.is_global_admin))
      ⊎ (get_by_username username s.db ≡ none)
        × (admin ≡ false)
        × (((l : String × String) × (find (λ (l : String × String). l.0 == username) c.legacy_users
                ≡ some l)
              × (p.verify_password password l.1 ≡ true))
            ⊎ (find (λ (l : String × String). l.0 == username) c.legacy_users ≡ none)
              × (p.verify_password password "" ≡ true))

  -- A login that succeeds had its password checked against the hash of a stored account that is
  -- active, or of a user of the configuration, or, for a name that is neither stored nor configured,
  -- against an empty hash that the checker accepted. It answers with the name given and the stored
  -- account's flag as administrator, which is false where none is stored, and its refresh token
  -- opens a session of that name until a full window after the session's creation.
  pub login_sound :
      (r : LoginResult)
      → (login p c t token username password s).0 ≡ ok r
      → CheckedAgainst r.is_global_admin
        × (r.username ≡ username)
        × ((now : ℕ)
            → now ≤ t.session_at + c.session_ttl_seconds * 1000
            → Sessions.username_for now r.refresh_token
                (login p c t token username password s).1.sessions
              ≡ ok username)
  login_sound r h =
      let (active, fits, name, flag, session) = login_checked r h in
      (against r.is_global_admin active fits flag, name, session)
    where
      against :
          (admin : Bool)
          → (candidate c username s).active ≡ true
          → p.verify_password password (candidate c username s).password_hash ≡ true
          → admin ≡ (candidate c username s).is_global_admin
          → CheckedAgainst admin
      against admin active fits flag = elim (Option-cases (get_by_username username s.db)) [
        | inr (u, here) ↦ inl (
          u,
          here,
          ground (arith, active, here),
          ground (arith, fits, here),
          ground (arith, flag, here),
        )
        | inl missing ↦
            elim (Option-cases (find (λ (l : String × String). l.0 == username) c.legacy_users)) [
              | inr (l, there) ↦ inr (
                missing,
                ground (arith, flag, missing, there),
                inl (l, there, ground (arith, fits, missing, there)),
              )
              | inl unknown ↦ inr (
                missing,
                ground (arith, flag, missing, unknown),
                inr (unknown, ground (arith, fits, missing, unknown)),
              )
            ]
      ]

-- For a name that is neither stored nor configured the login makes up a record with an empty hash,
-- and the password is compared with that, never with the dummy hash.
pub unknown_user_compares_empty :
    (c : AuthServiceConfig) (username : String) (s : AuthState)
    → get_by_username username s.db ≡ none
    → find (λ (l : String × String). l.0 == username) c.legacy_users ≡ none
    → (hash_to_compare username (candidate c username s ∷ []) ≡ "")
      × (hash_to_compare username (candidate c username s ∷ []) ≢ hash_to_compare username [])
unfolding hash_to_compare find
unknown_user_compares_empty c username s missing unknown = (
  ground (arith, missing, unknown, eq_iff username username),
  λ same. ground (arith, missing, unknown, eq_iff username username, same, eq_iff "" dummy_hash),
)

-- After a successful deactivation of the user of a session that is open at both readings of the
-- clock, a refresh with its token still succeeds, with a new access token for that user.
pub refresh_after_deactivation :
    (p : Platform) (c : AuthServiceConfig) (now tested later seconds : ℕ) (token username : String)
    (s : AuthState)
    → IsOpen now token username s.sessions
    → IsOpen tested token username s.sessions
    → (deactivate_user username s).0 ≡ ok tt
    → (r : LoginResult) × ((refresh p c now tested later seconds token
          (deactivate_user username s).1).0
        ≡ ok r)
      × (r.username ≡ username)
      × (r.access_token ≡ p.sign_token username seconds c.access_token_ttl_seconds)
unfolding refresh keep_alive deactivate_user
refresh_after_deactivation p c now tested later seconds token username s o o' h =
    let user = get_by_username username (deactivate_user username s).1.db in
    (
      record {
        username = username;
        access_token = p.sign_token username seconds c.access_token_ttl_seconds;
        refresh_token = token;
        expires_in_seconds = c.access_token_ttl_seconds;
        is_global_admin = admin_flag user;
        can_create_repos = some (create_flag user);
      },
      ground (
        arith,
        (username_for_iff now token username s.sessions).1 o,
        (keep_alive_slides c.session_ttl_seconds tested later token username s.sessions o').0,
      ),
      refl,
      refl,
    )
