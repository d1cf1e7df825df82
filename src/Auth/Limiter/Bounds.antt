-- ===== src/Auth/Limiter/Bounds.antt =====
-- How many logins the limiter lets through.
use deltix_server.Common.{
  ℕ, ◌+◌, ◌-◌, ◌≤◌, ◌<◌, ◌≡◌, refl, Bool, ◌&&◌, ◌⊎◌, true, false, String, List, [], ◌∷◌, none, some,
  string_eq, ◌==◌, leb, if◌then◌else◌, ok, err, arith, eq_iff, All, inl, inr, Bool-cases,
}
use deltix_server.Auth.Limiter.{WindowState, Windows, Limits, assert_allowed, record_attempt}

-- One login as AuthService begins it: the test, then, if it passed, the count. The clock is read
-- for each.
unfoldable pub attempt : Limits → (tested counted_at : ℕ) → String → Windows → Bool × Windows
attempt l tested counted_at key m =
    let (r, m') = assert_allowed l tested key m in
    elim r [ ok _ ↦ (true, record_attempt l counted_at key m') | err _ ↦ (false, m') ]

-- Whether an attempt on key `k` counts for `key`.
abbrev pub one_for : Bool → String → String → ℕ
one_for pass k key = if pass && k == key then 1 else 0

one_for-le-one : (pass : Bool) (k key : String) → one_for pass k key ≤ 1
one_for-le-one pass k key = ground arith

-- The attempts on `key` that pass, in a history of attempts on any keys: a key and two times each.
unfoldable pub passed : Limits → String → List (String × ℕ × ℕ) → Windows → ℕ
passed l key [] m = 0
passed l key ((k, tested, counted_at) ∷ rest) m =
    let (pass, m') = attempt l tested counted_at k m in one_for pass k key + passed l key rest m'

-- Every reading of the clock is before a time.
abbrev pub Before : ℕ → List (String × ℕ × ℕ) → Type 0
Before t = All (λ a. (a.1 < t) × (a.2 < t))

-- An attempt while the window of `key` is open: the window stays, with one more count if the
-- attempt was on `key` and passed, which it does only below the limit.
attempt-open :
    (l : Limits) (tested counted_at : ℕ) (k key : String) (m : Windows) (w : WindowState)
    → m key ≡ some w
    → tested < w.window_started_at + l.window_ms
    → counted_at < w.window_started_at + l.window_ms
    → (w' : WindowState) × ((attempt l tested counted_at k m).1 key ≡ some w')
      × (w'.window_started_at ≡ w.window_started_at)
      × (w'.count ≡ w.count + one_for (attempt l tested counted_at k m).0 k key)
      × ((one_for (attempt l tested counted_at k m).0 k key ≡ 0) ⊎ (w.count < l.max_attempts))
unfolding attempt assert_allowed record_attempt
attempt-open l tested counted_at k key m w here a b = elim (Bool-cases (k == key)) [
  | inr other ↦ (
    w,
    ground (arith, eq_iff k key, eq_iff key k),
    refl,
    ground (arith, eq_iff k key),
    ground (arith, eq_iff k key),
  )
  | inl same ↦ elim (Bool-cases (leb l.max_attempts w.count)) [
    | inl full ↦ (
      w,
      ground (arith, eq_iff k key, eq_iff key k),
      refl,
      ground (arith, eq_iff k key),
      ground (arith, eq_iff k key),
    )
    | inr free ↦ (
      record w { count = w.count + 1 },
      ground (arith, eq_iff k key, eq_iff key k),
      refl,
      ground (arith, eq_iff k key),
      ground (arith, eq_iff k key),
    )
  ]
]

-- While the window of a key is open, no history of attempts passes more of them on that key than
-- the limit leaves above its count, whatever happens on other keys.
pub passed-open :
    (l : Limits) (key : String) (attempts : List (String × ℕ × ℕ)) (m : Windows) (w : WindowState)
    → m key ≡ some w
    → Before (w.window_started_at + l.window_ms) attempts
    → passed l key attempts m ≤ l.max_attempts - w.count
unfolding passed
passed-open l key [] m w here early = omega arith
passed-open l key ((k, tested, counted_at) ∷ rest) m w here (now_early, rest_early) =
    let (w', there, started, counts, below) =
      attempt-open l tested counted_at k key m w here now_early.0 now_early.1 in
    let ih =
      passed-open l key rest (attempt l tested counted_at k m).1 w' there (rw started rest_early) in
    omega (arith, ih, counts, below, one_for-le-one (attempt l tested counted_at k m).0 k key)

-- From the first attempt on a key to the end of the window that it opens, at most `max_attempts`
-- attempts on it pass, or one if the limit is 0.
pub passed-first :
    (l : Limits) (key : String) (tested counted_at : ℕ) (rest : List (String × ℕ × ℕ)) (m : Windows)
    → m key ≡ none
    → Before (counted_at + l.window_ms) rest
    → passed l key ((key, tested, counted_at) ∷ rest) m ≤ 1 + (l.max_attempts - 1)
unfolding passed attempt assert_allowed record_attempt
passed-first l key tested counted_at rest m fresh early =
    let opened : WindowState = record { count = 1; window_started_at = counted_at } in
    let m' = (attempt l tested counted_at key m).1 in
    let here : m' key ≡ some opened = ground (arith, eq_iff key key) in
    omega (
      arith,
      passed-open l key rest m' opened here early,
      one_for-le-one (attempt l tested counted_at key m).0 key key,
    )
