-- ===== src/Storage/Sync.antt =====
-- contexts/storage/nas-sync.service.ts and nas-sync.worker.ts. The NAS adapter is an argument: the
-- checksum of the copy, or the message of the error that it rejects with. Readings of the clock
-- are arguments too, since each call of `now()` may return another time.
pub mod Laws
pub mod Drain
use deltix_server.Common.{
  ℕ, zero, suc, ◌+◌, ◌*◌, ◌^◌, min, Bool, true, false, String, Option, none, some, string_eq, ◌==◌,
  if◌then◌else◌, Result, ok, err,
}
use deltix_server.Storage.Types.{TransferJob}
use deltix_server.Storage.Jobs.{
  JobStore, claim_next_eligible, mark_synced, mark_failed, requeue_dead_letter,
}

unfoldable pub compute_backoff_ms : ℕ → ℕ → ℕ → ℕ
compute_backoff_ms retry_count base_ms max_ms = min (base_ms * 2 ^ retry_count) max_ms

-- `copyToNas(stagingPath, repo)`.
abbrev pub NasAdapter : Type 0
NasAdapter = String → String → Result String String

-- The options with their defaults, 1000 and 60000.
pub record BackoffOptions : Type 0 where
  pub backoff_base_ms : Option ℕ
  pub backoff_max_ms : Option ℕ

abbrev pub or_default : Option ℕ → ℕ → ℕ
or_default none d = d
or_default (some n) d = n

unfoldable pub backoff : BackoffOptions → ℕ → ℕ
unfolding compute_backoff_ms
backoff o retry_count =
    compute_backoff_ms retry_count (or_default o.backoff_base_ms 1000)
      (or_default o.backoff_max_ms 60_000)

-- The readings of the clock in one round: at the claim, for the next retry, and for `updated_at`.
pub record Clock : Type 0 where
  pub claimed_at : ℕ
  pub failed_at : ℕ
  pub stamp : ℕ

-- The message of `ChecksumMismatchError`.
abbrev pub mismatch_message : String
mismatch_message = "Checksum mismatch between staged file and NAS copy"

-- The outcome of the `try` block: `none` if the copy is whole, else the message of the error.
unfoldable pub copy_error : NasAdapter → TransferJob → Option String
copy_error nas job = elim (nas job.staging_path job.repo) [
  | ok checksum ↦ if checksum == job.checksum then none else some mismatch_message
  | err message ↦ some message
]

-- The `try` statement of `processNext`.
unfoldable pub settle : BackoffOptions → NasAdapter → Clock → TransferJob → JobStore → JobStore
settle o nas clock job s = elim (copy_error nas job) [
  | none ↦ (mark_synced job.id clock.stamp s).1
  | some message ↦
      (mark_failed job.id message (clock.failed_at + backoff o job.retry_count) clock.stamp s).1
]

unfoldable pub process_next : BackoffOptions → NasAdapter → Clock → JobStore → Bool × JobStore
process_next o nas clock s =
    let (claimed, s') = claim_next_eligible clock.claimed_at s in
    elim claimed [ none ↦ (false, s') | some job ↦ (true, settle o nas clock job s') ]

-- `retryDeadLetter`.
unfoldable pub retry_dead_letter : String → ℕ → JobStore → Bool × JobStore
retry_dead_letter id stamp s = requeue_dead_letter id stamp s

-- The loop of `drainOnce`: round `i` sees its own clock and its own NAS. `none` means that the
-- rounds given did not suffice.
unfoldable pub drain :
    BackoffOptions → (ℕ → NasAdapter) → (ℕ → Clock) → ℕ → ℕ → JobStore → Option JobStore
drain o nas clock zero i s = none
drain o nas clock (suc rounds) i s =
    let (processed, s') = process_next o (nas i) (clock i) s in
    elim processed [ true ↦ drain o nas clock rounds (suc i) s' | false ↦ some s' ]

-- The fields of `NasSyncWorker`: whether the timer is set, and the reentrancy flag.
pub record NasSyncWorker : Type 0 where
  pub timer : Bool
  pub draining : Bool

unfoldable pub start : NasSyncWorker → NasSyncWorker
start w = if w.timer then w else record w { timer = true }

unfoldable pub stop : NasSyncWorker → NasSyncWorker
stop w = record w { timer = false }

-- `drainOnce` up to the loop: whether this tick drains at all.
unfoldable pub begin_drain : NasSyncWorker → Bool × NasSyncWorker
begin_drain w = if w.draining then (false, w) else (true, record w { draining = true })

-- Its `finally` block.
unfoldable pub end_drain : NasSyncWorker → NasSyncWorker
end_drain w = record w { draining = false }
