-- ===== src/Storage/Jobs/Retries.antt =====
-- How often a job is retried, in every table that a history of calls can reach.
use deltix_server.Common.{
  ℕ, ◌≤◌, ◌<◌, ◌≡◌, refl, List, [], ◌∷◌, arith, inl, inr, ◌⊎◌, Option-cases, All, string_eq,
}
use deltix_server.Table.Keys.{update-All, insert-All}
use deltix_server.Storage.Types.{
  TransferJob, TransferJobStatus, staged, syncing, synced, sync_failed, dead_letter,
  job_status_beq_iff,
}
use deltix_server.Storage.Jobs.{
  JobStore, job_id, create, claim, mark_synced, mark_failed, requeue_dead_letter,
}
use deltix_server.Storage.Jobs.Race.{
  JobCall, creates, claims, syncs, fails, requeues, exec, exec_all,
}

-- A job in the pipeline has a retry left or has not failed yet; a job that waits for its next try
-- has a retry left; a dead letter has none.
abbrev pub BudgetFor : TransferJobStatus → ℕ → ℕ → Type 0
BudgetFor staged retries most = (retries ≡ 0) ⊎ (retries < most)
BudgetFor syncing retries most = (retries ≡ 0) ⊎ (retries < most)
BudgetFor synced retries most = (retries ≡ 0) ⊎ (retries < most)
BudgetFor sync_failed retries most = retries < most
BudgetFor dead_letter retries most = (most ≤ retries) × ((retries ≡ 1) ⊎ (retries ≤ most))

abbrev pub HasBudget : TransferJob → Type 0
HasBudget j = BudgetFor j.status j.retry_count j.max_retries

-- A call that enters a job enters it with no failures.
abbrev pub IsFresh : JobCall → Type 0
IsFresh (creates j h) = j.retry_count ≡ 0
IsFresh _ = Unit

exec-HasBudget :
    (c : JobCall) (s : JobStore) → IsFresh c → All HasBudget s → All HasBudget (exec c s)
unfolding exec create claim mark_synced mark_failed requeue_dead_letter
exec-HasBudget (creates j h) s fresh b = elim (Option-cases (create j s)) [
  | inl taken ↦ rw taken b
  | inr (s', e) ↦ rw e (insert-All job_id HasBudget j s (rw h (inl fresh)) b e)
]
exec-HasBudget (claims id now) s fresh b =
    update-All HasBudget _ _
      (λ j p h.
        ground (arith, job_status_beq_iff j.status staged, job_status_beq_iff j.status sync_failed))
      s b
exec-HasBudget (syncs id stamp) s fresh b =
    update-All HasBudget _ _ (λ j p h. ground (arith, job_status_beq_iff j.status syncing)) s b
exec-HasBudget (fails id error next stamp) s fresh b =
    update-All HasBudget _ _ (λ j p h. ground (arith, job_status_beq_iff j.status syncing)) s b
exec-HasBudget (requeues id stamp) s fresh b = update-All HasBudget _ _ (λ j p h. inl refl) s b

-- From a table whose jobs are within their retries, every history that enters only jobs with no
-- failures keeps them so: a job that is still to be tried has failed fewer than `max_retries` times
-- or never, a dead letter at least `max_retries` times, and at most so often or once.
pub exec_all-HasBudget :
    (cs : List JobCall) (s : JobStore)
    → All IsFresh cs
    → All HasBudget s
    → All HasBudget (exec_all cs s)
unfolding exec_all
exec_all-HasBudget [] s fresh b = b
exec_all-HasBudget (c ∷ cs) s fresh b =
    exec_all-HasBudget cs (exec c s) fresh.1 (exec-HasBudget c s fresh.0 b)
