-- ===== src/Addons/Breaker.antt =====
-- contexts/addons/addon-circuit-breaker.ts. A wrapped handler runs in two steps, since it awaits: it
-- is let in while its add-on is enabled, and its end is counted.
use deltix_server.Common.{
  ℕ, suc, ◌+◌, ◌≡◌, ap, Bool, true, false, not, ◌&&◌, ◌||◌, String, List, [], ◌∷◌, if◌then◌else◌,
  ◌==◌, string_eq, leb, arith, eq_iff, Bool-cases, inl, inr,
}

-- The map of counts, read by `get(name) ?? 0`, and the set of disabled add-ons.
pub record AddonCircuitBreaker : Type 0 where
  pub failure_counts : String → ℕ
  pub disabled : String → Bool

abbrev pub new_breaker : AddonCircuitBreaker
new_breaker = record { failure_counts = λ _. 0; disabled = λ _. false }

abbrev pub set_count : String → ℕ → (String → ℕ) → String → ℕ
set_count name n m k = if k == name then n else m k

abbrev pub add_disabled : Bool → String → (String → Bool) → String → Bool
add_disabled test name d k = if test && k == name then true else d k

-- `recordFailure`
unfoldable pub record_failure :
    (max_consecutive_failures : ℕ) → String → AddonCircuitBreaker → AddonCircuitBreaker
record_failure most name b =
    let count = b.failure_counts name + 1 in
    record {
      failure_counts = set_count name count b.failure_counts;
      disabled = add_disabled (leb most count) name b.disabled;
    }

-- The first test of `wrap`.
unfoldable pub enter : String → AddonCircuitBreaker → Bool
enter name b = not (b.disabled name)

-- What follows the handler: it returned a response, or threw.
unfoldable pub leave :
    (max_consecutive_failures : ℕ)
    → String
    → (failed : Bool) → AddonCircuitBreaker
    → AddonCircuitBreaker
leave most name failed b =
    if failed
    then record_failure most name b
    else record b { failure_counts = set_count name 0 b.failure_counts }

pub record Ending : Type 0 where
  pub name : String
  pub failed : Bool

abbrev pub run : ℕ → List Ending → AddonCircuitBreaker → AddonCircuitBreaker
run most [] b = b
run most (e ∷ es) b = run most es (leave most e.name e.failed b)

-- Whether a row of failures of one add-on, broken by none of its successes, reaches the limit.
abbrev pub trips : ℕ → String → (streak : ℕ) → List Ending → Bool
trips most name streak [] = false
trips most name streak (e ∷ es) =
    if e.name == name
    then if e.failed
      then leb most (suc streak) || trips most name (suc streak) es
      else trips most name 0 es
    else trips most name streak es

-- Whatever calls end, in any order, an add-on is turned away exactly when it was before or when as
-- many of its own calls failed in a row as the limit says; the calls of other add-ons count for
-- nothing, and a success later does not let it in again.
pub run-enter :
    (most : ℕ) (name : String) (es : List Ending) (b : AddonCircuitBreaker)
    → enter name (run most es b)
      ≡ (enter name b && not (trips most name (b.failure_counts name) es))
unfolding enter leave record_failure
run-enter most name [] b = ground arith
run-enter most name (e ∷ es) b =
    let rest = run-enter most name es (leave most e.name e.failed b) in
    elim (Bool-cases (e.name == name)) [
      | inl same ↦
          let q = (eq_iff e.name name).0 same in
          let at = ap b.failure_counts q in
          elim (Bool-cases e.failed) [
            | inl thrown ↦ ground (arith, rest, same, q, at, thrown, eq_iff name e.name)
            | inr fine ↦ ground (arith, rest, same, q, at, fine, eq_iff name e.name)
          ]
      | inr other ↦ ground (arith, rest, other, eq_iff e.name name, eq_iff name e.name)
    ]
