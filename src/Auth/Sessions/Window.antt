-- ===== src/Auth/Sessions/Window.antt =====
-- The sliding window of a session.
use mathlib.Core.Option
use deltix_server.Common.{
  ℕ, ◌+◌, ◌*◌, ◌≤◌, ◌<◌, ◌≡◌, ◌≢◌, ◌↔◌, ◌⊎◌, refl, Bool, true, ◌&&◌, String, List, [], ◌∷◌, none,
  some, string_eq, ◌==◌, if◌then◌else◌, ok, err, arith, eq_iff, inl, inr, Option-cases, leb, ltb,
  Bool-cases,
}
use deltix_server.Table.{find, affected}
use deltix_server.Table.Keys.{Unique, lookup-key, lookup-update, lookup-insert, lookup-delete}
use deltix_server.Auth.Sessions.{
  Session, SessionStore, session_not_found, session_expired, token_of, create, get, touch,
  set_expiry, revoke, count_active_sessions_for_user, create_session, new_session, username_for,
  assert_active, keep_alive,
}

-- A session that a token opens for a user at a time.
pub record IsOpen (now : ℕ) (token username : String) (s : SessionStore) : Type 0 where
  pub row : Session
  pub stored : get token s ≡ some row
  pub owner : row.username ≡ username
  pub in_time : now ≤ row.expires_at

pub get-token :
    (token : String) (s : SessionStore) {r : Session}
    → get token s ≡ some r
    → r.refresh_token ≡ token
unfolding get
get-token token s h = lookup-key token_of token s h

get-touch :
    (token k : String) (e : ℕ) (s : SessionStore)
    → get k (touch token e s)
      ≡ Option.map (λ r. if r.refresh_token == token then set_expiry e r else r) (get k s)
unfolding get touch
get-touch token k e s = lookup-update token_of _ _ (λ r. refl) k s

-- The token names the user exactly while the session is open.
pub username_for_iff :
    (now : ℕ) (token username : String) (s : SessionStore)
    → (username_for now token s ≡ ok username) ↔ IsOpen now token username s
unfolding username_for
username_for_iff now token username s = (to, from)
  where
    to : username_for now token s ≡ ok username → IsOpen now token username s
    to h = elim (Option-cases (get token s)) [
      | inl missing ↦ absurd (ground arith)
      | inr (r, e) ↦ record { row = r; stored = e; owner = ground arith; in_time = ground arith }
    ]

    from : IsOpen now token username s → username_for now token s ≡ ok username
    from h = ground (arith, h.stored, h.owner, h.in_time)

-- A heartbeat on an open session succeeds and moves its end to a full window after the heartbeat:
-- until then the token names its user, after that it is refused as expired. No other session
-- changes.
pub keep_alive_slides :
    (ttl now later : ℕ) (token username : String) (s : SessionStore)
    → IsOpen now token username s
    → let (r, s') = keep_alive ttl now later token s in
      (r ≡ ok tt)
      × ((t : ℕ)
          → username_for t token s'
            ≡ (if leb t (later + ttl * 1000) then ok username else err session_expired))
      × ((k : String) → k ≢ token → get k s' ≡ get k s)
unfolding keep_alive assert_active username_for
keep_alive_slides ttl now later token username s o = (
  ground (arith, o.stored, o.in_time),
  λ t. ground (
    arith,
    o.stored,
    o.in_time,
    o.owner,
    get-touch token token (later + ttl * 1000) s,
    get-token token s o.stored,
    eq_iff o.row.refresh_token token,
  ),
  λ k other. elim (Option-cases (get k s)) [
    | inl missing ↦ ground (arith, o.stored, o.in_time, get-touch token k (later + ttl * 1000) s)
    | inr (r, e) ↦ ground (
      arith,
      o.stored,
      o.in_time,
      get-touch token k (later + ttl * 1000) s,
      get-token k s e,
      eq_iff r.refresh_token token,
    )
  ],
)

-- A heartbeat on a token that opens no session is refused, as unknown or as expired, and changes
-- nothing.
pub keep_alive_refused :
    (ttl now later : ℕ) (token : String) (s : SessionStore)
    → ((username : String) → ¬ IsOpen now token username s)
    → (keep_alive ttl now later token s ≡ (err session_not_found, s))
      ⊎ (keep_alive ttl now later token s ≡ (err session_expired, s))
unfolding keep_alive assert_active
keep_alive_refused ttl now later token s closed = elim (Option-cases (get token s)) [
  | inl missing ↦ inl (ground (arith, missing))
  | inr (r, e) ↦ elim (Bool-cases (ltb r.expires_at now)) [
    | inl late ↦ inr (ground (arith, e, late))
    | inr early ↦
        absurd
          (closed r.username (record { row = r; stored = e; owner = refl; in_time = ground arith }))
  ]
]

get-revoke :
    (token k : String) (s : SessionStore)
    → Unique token_of s
    → get k (revoke token s)
      ≡ elim (get k s) [ none ↦ none | some r ↦ if r.refresh_token == token then none else some r ]
unfolding get revoke
get-revoke token k s u = lookup-delete token_of _ k s u

-- Where tokens are unique, logging out ends the session of the token, and no other.
pub username_for-revoke :
    (now : ℕ) (token k : String) (s : SessionStore)
    → Unique token_of s
    → username_for now k (revoke token s)
      ≡ (if k == token then err session_not_found else username_for now k s)
unfolding username_for
username_for-revoke now token k s u = elim (Option-cases (get k s)) [
  | inl missing ↦ ground (arith, get-revoke token k s u, missing)
  | inr (r, e) ↦ ground (
    arith,
    get-revoke token k s u,
    e,
    get-token k s e,
    eq_iff k token,
    eq_iff r.refresh_token token,
  )
]

affected_pos {ℓ} :
    {R : Type ℓ} (q p : R → Bool) (rows : List R) {r : R}
    → find q rows ≡ some r
    → p r ≡ true
    → 0 < affected p rows
unfolding find affected
affected_pos q p [] h k = cc
affected_pos q p (x ∷ rows) {r} h k = ground (arith, affected_pos q p rows {r = r})

-- While a token opens a session of a user, the count of the user's active sessions is not 0.
pub count_active-pos :
    (now : ℕ) (token username : String) (s : SessionStore)
    → IsOpen now token username s
    → 0 < count_active_sessions_for_user username now s
unfolding count_active_sessions_for_user get
count_active-pos now token username s o =
    affected_pos _ (λ r. r.username == username && leb now r.expires_at) s o.stored
      (ground (arith, o.owner, o.in_time, eq_iff o.row.username username))

-- A session that was created answers with its token, which is open for a full window from its
-- creation and refused as expired after that.
pub create_session-open :
    (ttl now stamp : ℕ) (token username r : String) (s : SessionStore)
    → (create_session ttl now stamp token username s).0 ≡ ok r
    → (r ≡ token)
      × ((t : ℕ)
          → username_for t token (create_session ttl now stamp token username s).1
            ≡ (if leb t (now + ttl * 1000) then ok username else err session_expired))
unfolding create_session create username_for get
create_session-open ttl now stamp token username r s h =
    elim (Option-cases (create token username (now + ttl * 1000) stamp s)) [
      | inl taken ↦ absurd (ground (arith, taken))
      | inr (s', e) ↦ (
        ground (arith, e),
        λ t. ground (
          arith,
          e,
          eq_iff token token,
          lookup-insert token_of (new_session token username (now + ttl * 1000) stamp) s token e,
        ),
      )
    ]
