-- ===== src/Auth/Limiter.antt =====
-- contexts/auth/login-rate-limiter.ts. The map of windows is a function; a test of
-- `now - started >= windowMs`, which may be negative in the source, is written with a sum.
pub mod Bounds
use deltix_server.Common.{
  ℕ, ◌+◌, Bool, String, List, Option, none, some, string_eq, ◌==◌, leb, if◌then◌else◌, Result, ok,
  err,
}

pub record WindowState : Type 0 where
  pub count : ℕ
  pub window_started_at : ℕ

abbrev pub Windows : Type 0
Windows = String → Option WindowState

-- `Map.prototype.set` and `delete`.
abbrev pub put : String → Option WindowState → Windows → Windows
put k v m j = if j == k then v else m j

abbrev pub is_over : ℕ → ℕ → WindowState → Bool
is_over window_ms now w = leb (w.window_started_at + window_ms) now

pub record Limits : Type 0 where
  pub max_attempts : ℕ
  pub window_ms : ℕ

-- `TooManyLoginAttemptsError`, without the wait that its message tells.
pub data LimiterError : Type 0 where
  too_many_login_attempts : LimiterError

unfoldable pub assert_allowed :
    Limits → ℕ → String → Windows → Result LimiterError (Unit {0}) × Windows
assert_allowed l now key m = elim (m key) [
  | none ↦ (ok tt, m)
  | some w ↦
      if is_over l.window_ms now w
      then (ok tt, put key none m)
      else if leb l.max_attempts w.count
      then (err too_many_login_attempts, m)
      else (ok tt, m)
]

abbrev pub counted : Limits → ℕ → Option WindowState → WindowState
counted l now none = record { count = 1; window_started_at = now }
counted l now (some w) =
    if is_over l.window_ms now w
    then record { count = 1; window_started_at = now }
    else record w { count = w.count + 1 }

unfoldable pub record_attempt : Limits → ℕ → String → Windows → Windows
record_attempt l now key m = put key (some (counted l now (m key))) m
