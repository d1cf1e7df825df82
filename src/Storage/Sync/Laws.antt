-- ===== src/Storage/Sync/Laws.antt =====
-- One round of the sync pipeline: which job it takes, and what becomes of it.
use deltix_server.Common.{
  ℕ, ◌+◌, ◌≡◌, ◌≢◌, refl, Bool, true, false, String, none, some, string_eq, ◌==◌, if◌then◌else◌,
  arith, eq_iff, inl, inr, ◌⊎◌, Option-cases, All, ok, Result-cases,
}
use deltix_server.Table.Keys.{Unique}
use deltix_server.Storage.Types.{TransferJob, synced}
use deltix_server.Storage.Jobs.{
  JobStore, job_id, get, is_eligible, set_syncing, set_synced, set_failed, claim,
}
use deltix_server.Storage.Jobs.Laws.{get-id, get-mark_synced, get-mark_failed}
use deltix_server.Storage.Jobs.Claim.{IsOldest, claim_next_eligible-Claims}
use deltix_server.Storage.Sync.{
  NasAdapter, BackoffOptions, Clock, backoff, copy_error, settle, process_next,
}

-- What becomes of the job that a round takes: synced if the copy is whole, else failed, with a
-- next try after the backoff for the failures so far.
abbrev pub settled : BackoffOptions → NasAdapter → Clock → TransferJob → TransferJob
settled o nas clock j = elim (copy_error nas j) [
  | none ↦ set_synced clock.stamp (set_syncing clock.claimed_at j)
  | some message ↦
      set_failed message (clock.failed_at + backoff o j.retry_count) clock.stamp
        (set_syncing clock.claimed_at j)
]

abbrev pub Processes : BackoffOptions → NasAdapter → Clock → JobStore → Bool × JobStore → Type 0
Processes o nas clock s r =
    (All (λ k. is_eligible clock.claimed_at k ≡ false) s × (r ≡ (false, s)))
    ⊎ ((j : TransferJob) × IsOldest clock.claimed_at s j
        × (r.0 ≡ true)
        × ((k : String)
            → get k r.1 ≡ (if k == j.id then some (settled o nas clock j) else get k s)))

copy_error-set_syncing :
    (nas : NasAdapter) (now : ℕ) (j : TransferJob)
    → copy_error nas (set_syncing now j) ≡ copy_error nas j
unfolding copy_error
copy_error-set_syncing nas now j = refl

module _ (o : BackoffOptions) (nas : NasAdapter) (clock : Clock) where
  get-settle :
      (s t : JobStore) (j : TransferJob)
      → ((k : String)
          → get k t ≡ (if k == j.id then some (set_syncing clock.claimed_at j) else get k s))
      → (k : String)
      → get k (settle o nas clock (set_syncing clock.claimed_at j) t)
        ≡ (if k == j.id then some (settled o nas clock j) else get k s)
  unfolding settle
  get-settle s t j claimed k = elim (Option-cases (copy_error nas j)) [
    | inl whole ↦ elim (Option-cases (get k t)) [
      | inl missing ↦ ground (
        arith,
        claimed k,
        whole,
        copy_error-set_syncing nas clock.claimed_at j,
        get-mark_synced t j.id clock.stamp k,
        eq_iff k j.id,
      )
      | inr (v, here) ↦ ground (
        arith,
        claimed k,
        whole,
        copy_error-set_syncing nas clock.claimed_at j,
        get-mark_synced t j.id clock.stamp k,
        eq_iff k j.id,
        eq_iff v.id j.id,
        get-id t k here,
      )
    ]
    | inr (message, failed) ↦
        let next = clock.failed_at + backoff o j.retry_count in
        elim (Option-cases (get k t)) [
          | inl missing ↦ ground (
            arith,
            claimed k,
            failed,
            copy_error-set_syncing nas clock.claimed_at j,
            get-mark_failed t j.id message next clock.stamp k,
            eq_iff k j.id,
          )
          | inr (v, here) ↦ ground (
            arith,
            claimed k,
            failed,
            copy_error-set_syncing nas clock.claimed_at j,
            get-mark_failed t j.id message next clock.stamp k,
            eq_iff k j.id,
            eq_iff v.id j.id,
            get-id t k here,
          )
        ]
  ]

  -- Where job ids are unique, a round does nothing when no job is eligible. Otherwise it takes an oldest eligible job, leaves
  -- it synced or failed as its copy went, and changes no other job.
  pub process_next-Processes :
      (s : JobStore) → Unique job_id s → Processes o nas clock s (process_next o nas clock s)
  unfolding process_next
  process_next-Processes s u = elim (claim_next_eligible-Claims clock.claimed_at s u) [
    | inl (nobody, e) ↦ inl (nobody, ground (arith, e))
    | inr (j, c, e, after) ↦ inr (
      j,
      c,
      ground (arith, e),
      λ k. ground (arith, e, get-settle s (claim j.id clock.claimed_at s).1 j after k),
    )
  ]

  -- Where job ids are unique, a stored job that was not synced becomes synced only in a round whose copy of its staged file to its repo came back with
  -- the checksum that was computed when the file was staged.
  pub synced_is_verified :
      (s : JobStore) (k : String) (j j' : TransferJob)
      → Unique job_id s
      → get k s ≡ some j
      → j.status ≢ synced
      → get k (process_next o nas clock s).1 ≡ some j'
      → j'.status ≡ synced
      → nas j.staging_path j.repo ≡ ok j.checksum
  unfolding copy_error
  synced_is_verified s k j j' u here waiting there done = elim (process_next-Processes s u) [
    | inl (nobody, e) ↦ absurd (waiting (ground (arith, e)))
    | inr (x, c, e, after) ↦ elim (Result-cases (nas j.staging_path j.repo)) [
      | inl (sum, copied) ↦ ground (arith, after k, eq_iff k x.id, c.stored, eq_iff sum j.checksum)
      | inr (message, failed) ↦ absurd (ground (arith, after k, eq_iff k x.id, c.stored))
    ]
  ]
