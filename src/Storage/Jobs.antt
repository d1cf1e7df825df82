-- ===== src/Storage/Jobs.antt =====
-- contexts/storage/libsql-transfer-job-store.ts: the table `transfer_jobs`, one function for each
-- method. `stamp` is the `Date.now()` that a method reads for `updated_at`.
pub mod Laws
pub mod Claim
pub mod Race
pub mod Retries
use deltix_server.Common.{
  ℕ, zero, suc, ◌+◌, Bool, true, false, ◌&&◌, ◌||◌, String, List, [], ◌∷◌, map, Option, none, some,
  string_eq, nat_eq, ◌==◌, ltb, leb, take, filter, if◌then◌else◌,
}
use deltix_server.Table.{update, affected}
use deltix_server.Table.Keys.{lookup, insert}
use deltix_server.Table.Order.{order_by}
use deltix_server.Storage.Types.{
  TransferJob, staged, syncing, synced, sync_failed, dead_letter, job_status_eq,
}

abbrev pub JobStore : Type 0
JobStore = List TransferJob

abbrev pub job_id : TransferJob → String
job_id j = j.id

unfoldable pub create : TransferJob → JobStore → Option JobStore
create j s = insert job_id j s

unfoldable pub get : String → JobStore → Option TransferJob
get id s = lookup job_id id s

-- `status = 'staged' OR (status = 'sync_failed' AND next_retry_at <= ?)`.
abbrev pub is_eligible : ℕ → TransferJob → Bool
is_eligible now j = j.status == staged || j.status == sync_failed && leb j.next_retry_at now

-- The SELECT of `claimNextEligible`: at most five ids, oldest first.
unfoldable pub candidates : ℕ → JobStore → List String
candidates now s = map job_id (take 5 (order_by (λ j. j.created_at) (filter (is_eligible now) s)))

abbrev pub set_syncing : ℕ → TransferJob → TransferJob
set_syncing now j = record j { status = syncing; updated_at = now }

-- The conditional UPDATE of `claimNextEligible`.
unfoldable pub claim : String → ℕ → JobStore → Bool × JobStore
claim id now s = (
  affected (λ j. j.id == id && is_eligible now j) s == 1,
  update (λ j. j.id == id && is_eligible now j) (set_syncing now) s,
)

-- The inner loop: the first candidate whose UPDATE affects its row.
unfoldable pub claim_first : ℕ → List String → JobStore → Option String × JobStore
claim_first now [] s = (none, s)
claim_first now (id ∷ ids) s =
    let (won, s') = claim id now s in
    let rest = claim_first now ids s' in if won then (some id, s') else rest

-- The outer loop over the attempts that are left.
unfoldable pub claim_attempts : ℕ → ℕ → JobStore → Option TransferJob × JobStore
claim_attempts zero now s = (none, s)
claim_attempts (suc attempts) now s = elim (candidates now s) [
  | [] ↦ (none, s)
  | id ∷ ids ↦
      let (won, s') = claim_first now (id ∷ ids) s in
      elim won [ some k ↦ (get k s', s') | none ↦ claim_attempts attempts now s' ]
]

unfoldable pub claim_next_eligible : ℕ → JobStore → Option TransferJob × JobStore
claim_next_eligible now s = claim_attempts 5 now s

abbrev pub is_syncing : TransferJob → Bool
is_syncing j = j.status == syncing

abbrev pub set_synced : ℕ → TransferJob → TransferJob
set_synced stamp j = record j { status = synced; updated_at = stamp }

unfoldable pub mark_synced : String → ℕ → JobStore → Bool × JobStore
mark_synced id stamp s = (
  affected (λ j. j.id == id && is_syncing j) s == 1,
  update (λ j. j.id == id && is_syncing j) (set_synced stamp) s,
)

-- The SET clause of `markFailed`; its expressions read the row as it was.
abbrev pub set_failed : String → ℕ → ℕ → TransferJob → TransferJob
set_failed error next_retry_at stamp j = record j {
  status = if leb j.max_retries (j.retry_count + 1) then dead_letter else sync_failed;
  retry_count = j.retry_count + 1;
  next_retry_at = next_retry_at;
  last_error = some error;
  updated_at = stamp;
}

unfoldable pub mark_failed : String → String → ℕ → ℕ → JobStore → Bool × JobStore
mark_failed id error next_retry_at stamp s = (
  affected (λ j. j.id == id && is_syncing j) s == 1,
  update (λ j. j.id == id && is_syncing j) (set_failed error next_retry_at stamp) s,
)

abbrev pub is_dead : TransferJob → Bool
is_dead j = j.status == dead_letter

abbrev pub set_requeued : ℕ → TransferJob → TransferJob
set_requeued stamp j = record j {
  status = staged;
  retry_count = 0;
  last_error = none;
  updated_at = stamp;
}

unfoldable pub requeue_dead_letter : String → ℕ → JobStore → Bool × JobStore
requeue_dead_letter id stamp s = (
  affected (λ j. j.id == id && is_dead j) s == 1,
  update (λ j. j.id == id && is_dead j) (set_requeued stamp) s,
)
