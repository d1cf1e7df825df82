-- ===== src/Storage/Sync/Drain.antt =====
-- The worker's loop ends: each round that takes a job uses up some of the work that is left.
use deltix_server.Common.{
  ℕ, zero, suc, ◌+◌, ◌-◌, ◌*◌, ◌≤◌, ◌<◌, ◌≡◌, refl, Bool, true, false, ◌&&◌, String, [], ◌∷◌,
  Option, none, some, string_eq, nat_eq, ◌==◌, arith, inl, inr, Option-cases, All,
}
use deltix_server.Table.{update, affected}
use deltix_server.Table.Keys.{Unique}
use deltix_server.Storage.Types.{
  TransferJob, TransferJobStatus, staged, syncing, synced, sync_failed, dead_letter,
  job_status_beq_iff,
}
use deltix_server.Storage.Jobs.{
  JobStore, job_id, is_eligible, is_syncing, set_syncing, set_synced, set_failed, claim,
  mark_synced, mark_failed, claim_next_eligible,
}
use deltix_server.Storage.Jobs.Laws.{
  claim-won, claim-Unique, mark_synced-Unique, mark_failed-Unique,
}
use deltix_server.Storage.Jobs.Claim.{claim_next_eligible-Claims}
use deltix_server.Storage.Sync.{
  NasAdapter, BackoffOptions, Clock, copy_error, settle, process_next, drain,
}

-- The transitions that a job can still make, at most.
abbrev pub work : TransferJobStatus → ℕ → ℕ
work staged tries = 2 * tries + 2
work sync_failed tries = 2 * tries + 2
work syncing tries = 2 * tries + 1
work synced tries = 0
work dead_letter tries = 0

abbrev pub job_work : TransferJob → ℕ
job_work j = work j.status (j.max_retries - j.retry_count)

unfoldable pub total_work : JobStore → ℕ
total_work [] = 0
total_work (j ∷ s) = job_work j + total_work s

update-work :
    (p : TransferJob → Bool) (f : TransferJob → TransferJob)
    → ((j : TransferJob) → p j ≡ true → suc (job_work (f j)) ≤ job_work j)
    → (s : JobStore) → total_work (update p f s) + affected p s ≤ total_work s
unfolding total_work update affected
update-work p f less [] = omega arith
update-work p f less (j ∷ s) = ground (arith, less j, update-work p f less s)

claim-work :
    (id : String) (now : ℕ) (s : JobStore)
    → (claim id now s).0 ≡ true
    → total_work (claim id now s).1 < total_work s
unfolding claim
claim-work id now s won = ground (
  arith,
  update-work (λ j. j.id == id && is_eligible now j) (set_syncing now)
      (λ j h.
        ground (arith, job_status_beq_iff j.status staged, job_status_beq_iff j.status sync_failed))
      s,
)

mark_synced-work :
    (id : String) (stamp : ℕ) (s : JobStore) → total_work (mark_synced id stamp s).1 ≤ total_work s
unfolding mark_synced
mark_synced-work id stamp s = omega (
  arith,
  update-work (λ j. j.id == id && is_syncing j) (set_synced stamp)
      (λ j h. ground (arith, job_status_beq_iff j.status syncing)) s,
)

mark_failed-work :
    (id error : String) (next stamp : ℕ) (s : JobStore)
    → total_work (mark_failed id error next stamp s).1 ≤ total_work s
unfolding mark_failed
mark_failed-work id error next stamp s = omega (
  arith,
  update-work (λ j. j.id == id && is_syncing j) (set_failed error next stamp)
      (λ j h. ground (arith, job_status_beq_iff j.status syncing)) s,
)

settle-work :
    (o : BackoffOptions) (nas : NasAdapter) (clock : Clock) (j : TransferJob) (s : JobStore)
    → total_work (settle o nas clock j s) ≤ total_work s
unfolding settle
settle-work o nas clock j s = elim (Option-cases (copy_error nas j)) [
  | inl whole ↦ rw (whole, settle) (mark_synced-work j.id clock.stamp s)
  | inr (message, failed) ↦ rw (failed, settle) (mark_failed-work j.id message _ clock.stamp s)
]

settle-Unique :
    (o : BackoffOptions) (nas : NasAdapter) (clock : Clock) (j : TransferJob) (s : JobStore)
    → Unique job_id s
    → Unique job_id (settle o nas clock j s)
unfolding settle
settle-Unique o nas clock j s u = elim (Option-cases (copy_error nas j)) [
  | inl whole ↦ rw (whole, settle) (mark_synced-Unique s u j.id clock.stamp)
  | inr (message, failed) ↦ rw (failed, settle) (mark_failed-Unique s u j.id message _ clock.stamp)
]

-- A round that finds no job leaves the table; one that takes a job leaves less work.
abbrev Progress : ℕ → JobStore → Bool × JobStore → Type 0
Progress now s (false, t) = (t ≡ s) × All (λ k. is_eligible now k ≡ false) s
Progress now s (true, t) = (total_work t < total_work s) × Unique job_id t

process_next-eq :
    (o : BackoffOptions) (nas : NasAdapter) (clock : Clock) (s t : JobStore) (j : TransferJob)
    → claim_next_eligible clock.claimed_at s ≡ (some j, t)
    → process_next o nas clock s ≡ (true, settle o nas clock j t)
unfolding process_next
process_next-eq o nas clock s t j e = ground (arith, e)

process_next_idle :
    (o : BackoffOptions) (nas : NasAdapter) (clock : Clock) (s : JobStore)
    → claim_next_eligible clock.claimed_at s ≡ (none, s)
    → process_next o nas clock s ≡ (false, s)
unfolding process_next
process_next_idle o nas clock s e = ground (arith, e)

process_next-Progress :
    (o : BackoffOptions) (nas : NasAdapter) (clock : Clock) (s : JobStore)
    → Unique job_id s
    → Progress clock.claimed_at s (process_next o nas clock s)
process_next-Progress o nas clock s u = elim (claim_next_eligible-Claims clock.claimed_at s u) [
  | inl (nobody, e) ↦ rw (process_next_idle o nas clock s e) (refl, nobody)
  | inr (j, c, e, after) ↦
      let t = (claim j.id clock.claimed_at s).1 in
      let job = set_syncing clock.claimed_at j in
      let won : (claim j.id clock.claimed_at s).0 ≡ true =
        ground (arith, claim-won s u j.id clock.claimed_at, c.stored, c.eligible) in
      let less : total_work (settle o nas clock job t) < total_work s =
        omega (arith, settle-work o nas clock job t, claim-work j.id clock.claimed_at s won) in
      rw (process_next-eq o nas clock s t job e)
        (less, settle-Unique o nas clock job t (claim-Unique s u j.id clock.claimed_at))
]

module _ (o : BackoffOptions) (nas : ℕ → NasAdapter) (clock : ℕ → Clock) where
  -- From round i on a table, each round but round n takes a job, and round n takes none.
  pub data Rounds : (i : ℕ) → JobStore → (n : ℕ) → JobStore → Type 0 where
    last_round :
        {i : ℕ} {s t : JobStore} → process_next o (nas i) (clock i) s ≡ (false, t) → Rounds i s i t
    busy_round :
        {i n : ℕ} {s s' t : JobStore}
        → process_next o (nas i) (clock i) s ≡ (true, s')
        → Rounds (suc i) s' n t
        → Rounds i s n t

  -- The loop has ended after round n, and no job is eligible at the time of that round.
  abbrev pub Drained : (i : ℕ) → JobStore → Option JobStore → Type 0
  Drained i s r =
      (n : ℕ) × (t : JobStore) × (r ≡ some t)
      × Rounds i s n t
      × All (λ k. is_eligible (clock n).claimed_at k ≡ false) t

  drain_round :
      (rounds i : ℕ) (s : JobStore) (r : Bool × JobStore)
      → process_next o (nas i) (clock i) s ≡ r
      → Progress (clock i).claimed_at s r
      → total_work s ≤ rounds
      → ((t : JobStore)
          → Unique job_id t
          → total_work t < rounds
          → Drained (suc i) t (drain o nas clock rounds (suc i) t))
      → Drained i s (drain o nas clock (suc rounds) i s)
  unfolding drain
  drain_round rounds i s (false, t) e (same, idle) h rest =
      (i, t, ground (arith, e), last_round e, rw same idle)
  drain_round rounds i s (true, t) e (less, u) h rest =
      let (n, v, ends, rounds_of, idle) = rest t u (omega arith) in
      (n, v, ground (arith, e, ends), busy_round e rounds_of, idle)

  -- From a table with unique ids and with more rounds than there is work, the loop ends, whatever
  -- the NAS answers and whatever time it is in each round: every round but the last takes a job, the
  -- last takes none, and no job is eligible by the clock of that very round.
  pub drain_total :
      (rounds i : ℕ) (s : JobStore)
      → Unique job_id s
      → total_work s < rounds
      → Drained i s (drain o nas clock rounds i s)
  drain_total zero i s u h = absurd (omega arith)
  drain_total (suc rounds) i s u h =
      drain_round rounds i s (process_next o (nas i) (clock i) s) refl
        (process_next-Progress o (nas i) (clock i) s u) (omega arith)
        (λ t v k. drain_total rounds (suc i) t v k)
