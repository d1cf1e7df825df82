-- ===== src/Auth/Service/Monad.antt =====
-- A service method: it reads and writes the three stores, and rejects with an error, in which case
-- what it wrote stays written.
use deltix_server.Common.{Bool, if◌then◌else◌, Result, ok, err}
use deltix_server.Auth.Limiter.{Windows, LimiterError}
use deltix_server.Auth.Sessions.{SessionStore, SessionError}
use deltix_server.Auth.Users.{UserStore}

pub record AuthState : Type 0 where
  pub windows : Windows
  pub sessions : SessionStore
  pub db : UserStore

pub data AuthError : Type 0 where
  too_many_login_attempts invalid_credentials user_inactive user_already_exists : AuthError
  user_not_found user_has_active_sessions setup_already_configured : AuthError
  invalid_repo_role repo_role_assignment_not_found constraint_violation : AuthError
  session_error : SessionError → AuthError

abbrev pub Action : Type 0 → Type 0
Action A = AuthState → Result AuthError A × AuthState

module _ {A : Type 0} where
  abbrev pub pure : A → Action A
  pure a s = (ok a, s)

  abbrev pub raise : AuthError → Action A
  raise e s = (err e, s)

  abbrev pub gets : (AuthState → A) → Action A
  gets f s = (ok (f s), s)

infixl 5 ◌>>=◌ ◌>>◌
abbrev pub ◌>>=◌ : {A B : Type 0} → Action A → (A → Action B) → Action B
◌>>=◌ m f s = let (r, s') = m s in elim r [ ok a ↦ f a s' | err e ↦ (err e, s') ]

abbrev pub ◌>>◌ : {A B : Type 0} → Action A → Action B → Action B
m >> k = m >>= λ _. k

abbrev pub raise_unless : Bool → AuthError → Action (Unit {0})
raise_unless b e s = (if b then ok tt else err e, s)

abbrev pub modify : (AuthState → AuthState) → Action (Unit {0})
modify f s = (ok tt, f s)

abbrev pub limiter_reply : Result LimiterError (Unit {0}) → Result AuthError (Unit {0})
limiter_reply (ok _) = ok tt
limiter_reply (err _) = err too_many_login_attempts

abbrev pub on_windows : (Windows → Result LimiterError (Unit {0}) × Windows) → Action (Unit {0})
on_windows f s = let (r, w) = f s.windows in (limiter_reply r, record s { windows = w })

abbrev pub session_reply : {A : Type 0} → Result SessionError A → Result AuthError A
session_reply (ok a) = ok a
session_reply (err e) = err (session_error e)

abbrev pub lift_session : {A : Type 0} → (AuthState → Result SessionError A) → Action A
lift_session f s = (session_reply (f s), s)

abbrev pub on_sessions :
    {A : Type 0} → (SessionStore → Result SessionError A × SessionStore) → Action A
on_sessions f s = let (r, t) = f s.sessions in (session_reply r, record s { sessions = t })
