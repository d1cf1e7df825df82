-- ===== src/Auth/Sessions.antt =====
-- contexts/auth/libsql-session-store.ts and session-manager.ts: refresh-token sessions that expire
-- after a time without activity. `stamp` is the `Date.now()` of an INSERT.
pub mod Window
use deltix_server.Common.{
  ℕ, ◌+◌, ◌*◌, Bool, true, false, ◌&&◌, String, List, Option, none, some, string_eq, ◌==◌, ltb, leb,
  if◌then◌else◌, Result, ok, err,
}
use deltix_server.Table.{update, affected, delete}
use deltix_server.Table.Keys.{lookup, insert}

pub record Session : Type 0 where
  pub refresh_token : String
  pub username : String
  pub created_at : ℕ
  pub expires_at : ℕ

abbrev pub SessionStore : Type 0
SessionStore = List Session

abbrev pub token_of : Session → String
token_of r = r.refresh_token

abbrev pub new_session : String → String → ℕ → ℕ → Session
new_session token username expires_at stamp = record {
  refresh_token = token;
  username = username;
  created_at = stamp;
  expires_at = expires_at;
}

unfoldable pub create : String → String → ℕ → ℕ → SessionStore → Option SessionStore
create token username expires_at stamp s =
    insert token_of (new_session token username expires_at stamp) s

unfoldable pub get : String → SessionStore → Option Session
get token s = lookup token_of token s

abbrev pub set_expiry : ℕ → Session → Session
set_expiry e r = record r { expires_at = e }

unfoldable pub touch : String → ℕ → SessionStore → SessionStore
touch token new_expires_at s = update (λ r. r.refresh_token == token) (set_expiry new_expires_at) s

unfoldable pub revoke : String → SessionStore → SessionStore
revoke token s = delete (λ r. r.refresh_token == token) s

unfoldable pub count_active_sessions_for_user : String → ℕ → SessionStore → ℕ
count_active_sessions_for_user username now s =
    affected (λ r. r.username == username && leb now r.expires_at) s

-- `SessionNotFoundError`, `SessionExpiredError`; a taken token violates the primary key.
pub data SessionError : Type 0 where
  session_not_found session_expired token_taken : SessionError

-- `createSession`: the random token and the clock are arguments.
unfoldable pub create_session :
    (ttl_seconds now stamp : ℕ) (token username : String)
    → SessionStore
    → Result SessionError String × SessionStore
create_session ttl_seconds now stamp token username s =
    elim (create token username (now + ttl_seconds * 1000) stamp s) [
      | none ↦ (err token_taken, s)
      | some s' ↦ (ok token, s')
    ]

unfoldable pub username_for : ℕ → String → SessionStore → Result SessionError String
username_for now token s = elim (get token s) [
  | none ↦ err session_not_found
  | some r ↦ if ltb r.expires_at now then err session_expired else ok r.username
]

unfoldable pub assert_active : ℕ → String → SessionStore → Result SessionError (Unit {0})
assert_active now token s = elim (get token s) [
  | none ↦ err session_not_found
  | some r ↦ if ltb r.expires_at now then err session_expired else ok tt
]

-- `keepAlive`: the clock is read for the test and for the new expiry.
unfoldable pub keep_alive :
    (ttl_seconds now later : ℕ)
    → String
    → SessionStore
    → Result SessionError (Unit {0}) × SessionStore
keep_alive ttl_seconds now later token s = elim (assert_active now token s) [
  | err e ↦ (err e, s)
  | ok _ ↦ (ok tt, touch token (later + ttl_seconds * 1000) s)
]
