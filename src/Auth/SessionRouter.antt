-- ===== src/Auth/SessionRouter.antt =====
-- contexts/auth/auth.router.ts: the routes for the first set-up, login, refresh, keep-alive and
-- logout, with the cookie of the refresh token. `host_of` is `new URL(origin).host`, or nothing where
-- that throws. The status 500 is an error that a route does not catch.
pub mod Origin
use deltix_server.Common.{
  ℕ, Bool, true, false, not, ◌&&◌, String, List, [], ◌∷◌, Option, none, some, if◌then◌else◌, ◌==◌,
  nat_eq, string_eq, leb, length, Result, ok, err,
}
use deltix_server.Versioning.Names.{codes, trim, lower_codes, utf16, to_list}
use text.Mathlib.TextBridge.{of_list}
use Prim.Native.Char.{Char, code}
use deltix_server.Auth.Service.{
  AuthState, AuthError, invalid_credentials, user_inactive, too_many_login_attempts,
  setup_already_configured, user_already_exists, session_error, Platform, AuthServiceConfig,
  LoginClock, LoginResult, Action,
}
use deltix_server.Auth.Sessions.{session_not_found, session_expired}
use deltix_server.Auth.Service.Accounts.{get_setup_status, is_eligible, setup_first_admin}
use deltix_server.Auth.Service

pub record HttpContext : Type 0 where
  pub forwarded_proto : Option String
  pub origin : Option String
  pub host : Option String
  pub cookie : Option String
  -- `new URL(c.req.url).protocol`
  pub protocol : String

-- What a response does to the cookie of the refresh token.
pub data Cookie : Type 0 where
  kept deleted : Cookie
  set_token : (token : String) → (secure : Bool) → Cookie

pub record Reply : Type 0 where
  pub status : ℕ
  pub cookie : Cookie

abbrev pub reply : ℕ → Reply
reply n = record { status = n; cookie = kept }

-- A header that is missing or empty.
abbrev pub filled : Option String → Option String
filled none = none
filled (some s) = if s == "" then none else some s

-- `split(',')[0]`
abbrev pub up_to_comma : List Char → List Char
up_to_comma [] = []
up_to_comma (c ∷ cs) = if code c == 44 then [] else c ∷ up_to_comma cs

abbrev pub same_codes : List ℕ → List ℕ → Bool
same_codes [] [] = true
same_codes (x ∷ xs) (y ∷ ys) = x == y && same_codes xs ys
same_codes _ _ = false

unfoldable pub is_request_https : HttpContext → Bool
is_request_https h = elim (filled h.forwarded_proto) [
  | some proto ↦
      same_codes (lower_codes (codes (trim (of_list (up_to_comma (to_list proto))))))
        (codes "https")
  | none ↦ h.protocol == "https:"
]

unfoldable pub set_refresh_token_cookie :
    (secure_cookies : Bool) → HttpContext → (token : String) → Cookie
set_refresh_token_cookie secure_cookies h token =
    set_token token (secure_cookies && is_request_https h)

abbrev pub equals : String → Option String → Bool
equals host none = false
equals host (some origin_host) = origin_host == host

unfoldable pub is_same_origin_or_no_origin : (String → Option String) → HttpContext → Bool
is_same_origin_or_no_origin host_of h = elim (filled h.origin) [
  | none ↦ true
  | some origin ↦ elim (filled h.host) [ none ↦ false | some host ↦ equals host (host_of origin) ]
]

-- The body of a session route: it is not JSON, it is JSON that the schema refuses for its type, or it
-- has the field or lacks it.
pub data SessionBody : Type 0 where
  not_json ill_typed : SessionBody
  object : Option String → SessionBody

-- `sessionTokenBodySchema`
unfoldable pub session_token_body : SessionBody → Option (Option String)
session_token_body not_json = none
session_token_body ill_typed = none
session_token_body (object none) = some none
session_token_body (object (some token)) = if token == "" then none else some (some token)

-- `.catch(() => ({}))`
abbrev pub or_empty : SessionBody → SessionBody
or_empty not_json = object none
or_empty body = body

-- The string's `length` lies between the bounds.
unfoldable pub sized : (low high : ℕ) → String → Bool
sized low high s = let n = length (utf16 (codes s)) in leb low n && leb n high

-- A user name and a password, when the body is an object with both.
abbrev pub Credentials : Type 0
Credentials = Option (String × String)

unfoldable pub login_body : Credentials → Credentials
login_body none = none
login_body (some (username, password)) =
    if sized 1 256 username && sized 1 1024 password then some (username, password) else none

-- `createUserSchema`, for a body whose `canCreateRepos` is a boolean or missing.
unfoldable pub create_user_body : Credentials → Credentials
create_user_body none = none
create_user_body (some (username, password)) =
    if sized 1 256 username && sized 8 1024 password then some (username, password) else none

-- The token of the body, or else that of the cookie; neither is empty.
abbrev pub chosen_token : Option String → HttpContext → Option String
chosen_token (some token) h = some token
chosen_token none h = filled h.cookie

-- `!parsed.data.refreshToken && !isSameOriginOrNoOrigin(c)`
abbrev pub cross_origin : (String → Option String) → HttpContext → Option String → Bool
cross_origin host_of h none = not (is_same_origin_or_no_origin host_of h)
cross_origin host_of h (some token) = false

abbrev pub setup_error : AuthError → ℕ
setup_error AuthError.setup_already_configured = 404
setup_error AuthError.user_already_exists = 409
setup_error _ = 500

abbrev pub login_error : AuthError → ℕ
login_error AuthError.invalid_credentials = 401
login_error AuthError.user_inactive = 401
login_error AuthError.too_many_login_attempts = 429
login_error _ = 500

-- The cookie is deleted for a session that is not found or expired.
abbrev pub refresh_error : AuthError → Reply
refresh_error (session_error session_not_found) = record { status = 401; cookie = deleted }
refresh_error (session_error session_expired) = record { status = 401; cookie = deleted }
refresh_error _ = reply 500

abbrev pub keep_alive_error : AuthError → ℕ
keep_alive_error (session_error session_not_found) = 401
keep_alive_error (session_error session_expired) = 401
keep_alive_error _ = 500

abbrev pub answer :
    {A : Type 0} → (A → Reply) → (AuthError → Reply) → Action A → AuthState → Reply × AuthState
answer good bad m s = let (r, s') = m s in elim r [ ok a ↦ (good a, s') | err e ↦ (bad e, s') ]

-- Readings of the clock: for the session's name, the heartbeat's two, and the token.
pub record RefreshClock : Type 0 where
  pub now : ℕ
  pub tested : ℕ
  pub later : ℕ
  pub token_seconds : ℕ

module _ (p : Platform) (c : AuthServiceConfig) (secure_cookies : Bool)
    (host_of : String → Option String) where
  unfoldable pub get_setup : AuthState → Reply × AuthState
  get_setup s = (reply (if is_eligible (get_setup_status c s) then 200 else 404), s)

  unfoldable pub post_setup : String → ℕ → Credentials → AuthState → Reply × AuthState
  post_setup salt now body s =
      if is_eligible (get_setup_status c s)
      then elim (create_user_body body) [
        | none ↦ (reply 400, s)
        | some (username, password) ↦
            answer (λ _. reply 201) (λ e. reply (setup_error e))
              (setup_first_admin p c salt now username password) s
      ]
      else (reply 404, s)

  unfoldable pub post_login :
      LoginClock → (token : String) → HttpContext → Credentials → AuthState → Reply × AuthState
  unfolding set_refresh_token_cookie
  post_login t token h body s = elim (login_body body) [
    | none ↦ (reply 400, s)
    | some (username, password) ↦
        answer
          (λ result. record {
            status = 200;
            cookie = set_refresh_token_cookie secure_cookies h result.refresh_token;
          })
          (λ e. reply (login_error e)) (Service.login p c t token username password) s
  ]

  abbrev pub refresh_with :
      RefreshClock → HttpContext → Option String → AuthState → Reply × AuthState
  refresh_with t h given s = elim (chosen_token given h) [
    | none ↦ (reply 401, s)
    | some token ↦
        if cross_origin host_of h given
        then (reply 403, s)
        else answer
            (λ result. record {
              status = 200;
              cookie = set_refresh_token_cookie secure_cookies h result.refresh_token;
            })
            refresh_error (Service.refresh p c t.now t.tested t.later t.token_seconds token) s
  ]

  unfoldable pub post_refresh :
      RefreshClock → HttpContext → SessionBody → AuthState → Reply × AuthState
  post_refresh t h body s = elim (session_token_body (or_empty body)) [
    | none ↦ (reply 400, s)
    | some given ↦ refresh_with t h given s
  ]

  abbrev pub keep_alive_with :
      (now later : ℕ) → HttpContext → Option String → AuthState → Reply × AuthState
  keep_alive_with now later h given s = elim (chosen_token given h) [
    | none ↦ (reply 400, s)
    | some token ↦
        if cross_origin host_of h given
        then (reply 403, s)
        else answer (λ _. reply 200) (λ e. reply (keep_alive_error e))
            (Service.keep_alive c now later token) s
  ]

  unfoldable pub post_keep_alive :
      (now later : ℕ) → HttpContext → SessionBody → AuthState → Reply × AuthState
  post_keep_alive now later h body s = elim (session_token_body body) [
    | none ↦ (reply 400, s)
    | some given ↦ keep_alive_with now later h given s
  ]

  abbrev pub logout_with : HttpContext → Option String → AuthState → Reply × AuthState
  logout_with h given s = elim (chosen_token given h) [
    | none ↦ (record { status = 200; cookie = deleted }, s)
    | some token ↦
        if cross_origin host_of h given
        then (reply 403, s)
        else answer (λ _. record { status = 200; cookie = deleted }) (λ e. reply 500)
            (Service.logout token) s
  ]

  unfoldable pub post_logout : HttpContext → SessionBody → AuthState → Reply × AuthState
  post_logout h body s = elim (session_token_body body) [
    | none ↦ (reply 400, s)
    | some given ↦ logout_with h given s
  ]
