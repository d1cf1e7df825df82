-- ===== src/TlsDiscovery.antt =====
-- contexts/tls-discovery/bootstrap-rate-limiter.ts, and the guard of certificate-bootstrap.router.ts.
-- The map of windows is a function, as in the model of the limiter of logins.
mod Tests
use deltix_server.Common.{
  ℕ, ◌+◌, ◌≡◌, refl, ap, Bool, true, false, not, ◌&&◌, String, List, [], ◌∷◌, Option, none, some,
  if◌then◌else◌, ◌==◌, string_eq, leb, ok, err, inl, inr, Option-cases, Bool-cases, arith,
}
use deltix_server.Auth.Limiter.{WindowState, Windows, Limits, put, is_over, assert_allowed, counted}
use deltix_server.Auth.Limiter.Bounds.{attempt}
use deltix_server.Auth.Limiter

-- `isAllowed`
unfoldable pub is_allowed : Limits → ℕ → String → Windows → Bool × Windows
is_allowed l now key m = elim (m key) [
  | none ↦ (true, m)
  | some state ↦
      if leb (state.window_started_at + l.window_ms) now
      then (true, put key none m)
      else (not (leb l.max_attempts state.count), m)
]

unfoldable pub record_attempt : Limits → ℕ → String → Windows → Windows
record_attempt l now key m = elim (m key) [
  | none ↦ put key (some (record { count = 1; window_started_at = now })) m
  | some state ↦
      if leb (state.window_started_at + l.window_ms) now
      then put key (some (record { count = 1; window_started_at = now })) m
      else put key (some (record state { count = state.count + 1 })) m
]

-- `GET /certificate` up to the answer: the test, then, if it passed, the count.
unfoldable pub get_certificate :
    Limits → (tested counted_at : ℕ) → String → Windows → Bool × Windows
get_certificate l tested counted_at key m =
    let (allowed, m') = is_allowed l tested key m in
    if allowed then (true, record_attempt l counted_at key m') else (false, m')

record_attempt-eq :
    (l : Limits) (now : ℕ) (key : String) (m : Windows)
    → record_attempt l now key m ≡ Limiter.record_attempt l now key m
unfolding record_attempt Limiter.record_attempt
record_attempt-eq l now key m = elim (Option-cases (m key)) [
  | inl none_yet ↦ rw (none_yet, record_attempt) refl
  | inr (w, here) ↦ elim (Bool-cases (leb (w.window_started_at + l.window_ms) now)) [
    | inl over ↦ ground (arith, here, over)
    | inr still ↦ ground (arith, here, still)
  ]
]

-- The answers to a history of requests: a source and two readings of the clock each.
abbrev pub answers :
    (String → ℕ → ℕ → Windows → Bool × Windows)
    → List (String × ℕ × ℕ)
    → Windows
    → List Bool × Windows
answers serve [] m = ([], m)
answers serve ((key, tested, counted_at) ∷ rest) m =
    let (pass, m') = serve key tested counted_at m in
    let (passes, last) = answers serve rest m' in (pass ∷ passes, last)

get_certificate-eq :
    (l : Limits) (tested counted_at : ℕ) (key : String) (m : Windows)
    → get_certificate l tested counted_at key m ≡ attempt l tested counted_at key m
unfolding get_certificate attempt is_allowed assert_allowed
get_certificate-eq l tested counted_at key m = elim (Option-cases (m key)) [
  | inl none_yet ↦ ground (arith, none_yet, record_attempt-eq l counted_at key m)
  | inr (w, here) ↦ elim (Bool-cases (leb (w.window_started_at + l.window_ms) tested)) [
    | inl over ↦ ground (arith, here, over, record_attempt-eq l counted_at key (put key none m))
    | inr still ↦ ground (arith, here, still, record_attempt-eq l counted_at key m)
  ]
]

-- The limiter of certificate requests is the limiter of logins: on every history of requests, from
-- any windows, both let the same ones through and keep the same windows.
pub answers-eq :
    (l : Limits) (history : List (String × ℕ × ℕ)) (m : Windows)
    → answers (λ key tested counted_at. get_certificate l tested counted_at key) history m
      ≡ answers (λ key tested counted_at. attempt l tested counted_at key) history m
answers-eq l [] m = refl
answers-eq l ((key, tested, counted_at) ∷ rest) m =
    let step = get_certificate-eq l tested counted_at key m in
    let later = answers-eq l rest (attempt l tested counted_at key m).1 in
    rw step (ap (λ o. ((attempt l tested counted_at key m).0 ∷ o.0, o.1)) later)
