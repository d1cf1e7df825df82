-- ===== src/Storage/Jobs/Claim.antt =====
-- `claimNextEligible` on a store that nobody else writes meanwhile.
use deltix_server.Common.{
  ℕ, ◌≤◌, ◌≡◌, refl, sym, true, false, String, List, [], ◌∷◌, Option, none, some, string_eq, ◌==◌,
  if◌then◌else◌, arith, eq_iff, inl, inr, ◌⊎◌, filter, All, All-imp, All-filter, All-of_filter,
  Option-cases, Bool-cases, subst,
}
use deltix_server.Table.Keys.{Unique, Unique-lookup, lookup}
use deltix_server.Table.Order.{
  order_by, order_by-All, order_by-All_inv, order_by-IsOrdered, IsOrdered,
}
use deltix_server.Storage.Types.{TransferJob}
use deltix_server.Storage.Jobs.{
  JobStore, job_id, get, is_eligible, candidates, set_syncing, claim, claim_first, claim_attempts,
  claim_next_eligible,
}
use deltix_server.Storage.Jobs.Laws.{get-id, get-claim, claim-won}

abbrev by_age : ℕ → JobStore → List TransferJob
by_age now s = order_by (λ j. j.created_at) (filter (is_eligible now) s)

-- The job that is stored under its id, is eligible, and is no younger than any that is.
pub record IsOldest (now : ℕ) (s : JobStore) (j : TransferJob) : Type 0 where
  pub stored : get j.id s ≡ some j
  pub eligible : is_eligible now j ≡ true
  pub oldest : All (λ k. is_eligible now k ≡ true → j.created_at ≤ k.created_at) s

by_age-IsOldest :
    (now : ℕ) (s : JobStore) {j : TransferJob} {js : List TransferJob}
    → Unique job_id s
    → by_age now s ≡ j ∷ js
    → IsOldest now s j
unfolding get
by_age-IsOldest now s {j} {js} u e =
    let key : TransferJob → ℕ = λ k. k.created_at in
    let chosen = filter (is_eligible now) s in
    let facts =
      order_by-All key _ chosen (All-filter _ (is_eligible now) s (Unique-lookup job_id s u)) in
    let head =
      subst (All (λ k. (lookup job_id k.id s ≡ some k) × (is_eligible now k ≡ true))) e facts in
    let sorted = subst (IsOrdered key) e (order_by-IsOrdered key chosen) in
    let least : All (λ k. j.created_at ≤ k.created_at) (j ∷ js) = (omega arith, sorted.0) in
    record {
      stored = head.0.0;
      eligible = head.0.1;
      oldest = All-of_filter _ (is_eligible now) s (
          order_by-All_inv key (λ k. j.created_at ≤ k.created_at) chosen
            (subst (All (λ k. j.created_at ≤ k.created_at)) (sym e) least));
    }

by_age-nil : (now : ℕ) (s : JobStore) → by_age now s ≡ [] → All (λ k. is_eligible now k ≡ false) s
by_age-nil now s e =
    let chosen = filter (is_eligible now) s in
    let none_chosen =
      order_by-All_inv (λ (k : TransferJob). k.created_at) (λ k. ⊥) chosen
        (subst (All (λ k. ⊥)) (sym e) tt) in
    All-imp _ _ (λ k. refused k) s (All-of_filter (λ k. ⊥) (is_eligible now) s none_chosen)
  where
    refused : (k : TransferJob) → (is_eligible now k ≡ true → ⊥) → is_eligible now k ≡ false
    refused k h = elim (Bool-cases (is_eligible now k)) [
      | inl yes_it_is ↦ absurd (h yes_it_is)
      | inr no_it_is ↦ no_it_is
    ]

-- What `claimNextEligible` may do: nothing when no job is eligible, and otherwise take an oldest
-- eligible job and mark it, in the reply and in the table, with no other job touched.
abbrev pub Claims : ℕ → JobStore → Option TransferJob × JobStore → Type 0
Claims now s r =
    (All (λ k. is_eligible now k ≡ false) s × (r ≡ (none, s)))
    ⊎ ((j : TransferJob) × IsOldest now s j
        × (r ≡ (some (set_syncing now j), (claim j.id now s).1))
        × ((k : String)
            → get k (claim j.id now s).1
              ≡ (if k == j.id then some (set_syncing now j) else get k s)))

get-claim_of :
    (now : ℕ) (s : JobStore) (j : TransferJob)
    → IsOldest now s j
    → (k : String)
    → get k (claim j.id now s).1 ≡ (if k == j.id then some (set_syncing now j) else get k s)
get-claim_of now s j c k = elim (Option-cases (get k s)) [
  | inl missing ↦ ground (arith, get-claim s j.id now k, c.stored, eq_iff k j.id)
  | inr (v, e) ↦ ground (
    arith,
    get-claim s j.id now k,
    c.stored,
    c.eligible,
    eq_iff k j.id,
    eq_iff v.id j.id,
    get-id s k e,
  )
]

claim_next_of :
    (now : ℕ) (s : JobStore) (j : TransferJob) (js : List TransferJob)
    → Unique job_id s
    → by_age now s ≡ j ∷ js
    → IsOldest now s j
    → claim_next_eligible now s ≡ (some (set_syncing now j), (claim j.id now s).1)
unfolding claim_next_eligible claim_attempts candidates claim_first
claim_next_of now s j js u e c = ground (
  arith,
  e,
  claim-won s u j.id now,
  c.stored,
  c.eligible,
  get-claim_of now s j c j.id,
  eq_iff j.id j.id,
)

-- Where job ids are unique, a claim answers with none exactly where no job is eligible, and then changes nothing. Otherwise
-- it answers with an oldest eligible job, made syncing, and changes no other job.
pub claim_next_eligible-Claims :
    (now : ℕ) (s : JobStore) → Unique job_id s → Claims now s (claim_next_eligible now s)
claim_next_eligible-Claims now s u = by_cases (by_age now s) refl
  where
    by_cases :
        (js : List TransferJob) → by_age now s ≡ js → Claims now s (claim_next_eligible now s)
    by_cases [] e = inl (
      by_age-nil now s e,
      unfold claim_next_eligible claim_attempts candidates in ground (arith, e),
    )
    by_cases (j ∷ js) e =
        let c = by_age-IsOldest now s u e in
        inr (j, c, claim_next_of now s j js u e c, get-claim_of now s j c)
