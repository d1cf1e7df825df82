-- ===== src/Storage/Jobs/Laws.antt =====
-- What each method of the job store does to the row of a job, and when it reports success.
use mathlib.Core.Option
use deltix_server.Common.{
  ℕ, ◌≡◌, refl, Bool, ◌&&◌, String, none, some, string_eq, ◌==◌, if◌then◌else◌,
}
use deltix_server.Table.Keys.{
  Unique, meets, lookup-key, lookup-update, won-lookup, update-Unique, lookup-insert,
  insert-eq-some, insert-Unique,
}
use deltix_server.Storage.Types.{TransferJob}
use deltix_server.Storage.Jobs.{
  JobStore, job_id, create, get, is_eligible, set_syncing, claim, is_syncing, set_synced,
  mark_synced, set_failed, mark_failed, is_dead, set_requeued, requeue_dead_letter,
}

-- A conditional UPDATE of one job, as all the transitions are.
abbrev pub on {ℓ} : {A : Type ℓ} → (A → Bool) → (A → A) → A → A
on p f j = if p j then f j else j

module _ (s : JobStore) where
  pub get-id : (k : String) {j : TransferJob} → get k s ≡ some j → j.id ≡ k
  unfolding get
  get-id k h = lookup-key job_id k s h

  pub get-create :
      (j : TransferJob) (k : String) {s' : JobStore}
      → create j s ≡ some s'
      → get k s' ≡ (if j.id == k then some j else get k s)
  unfolding get create
  get-create j k h = lookup-insert job_id j s k h

  pub create-free : (j : TransferJob) {s' : JobStore} → create j s ≡ some s' → get j.id s ≡ none
  unfolding get create
  create-free j h = (insert-eq-some job_id j s h).0

  pub get-claim :
      (id : String) (now : ℕ) (k : String)
      → get k (claim id now s).1
        ≡ Option.map (on (λ j. j.id == id && is_eligible now j) (set_syncing now)) (get k s)
  unfolding get claim
  get-claim id now k = lookup-update job_id _ _ (λ j. refl) k s

  pub get-mark_synced :
      (id : String) (stamp : ℕ) (k : String)
      → get k (mark_synced id stamp s).1
        ≡ Option.map (on (λ j. j.id == id && is_syncing j) (set_synced stamp)) (get k s)
  unfolding get mark_synced
  get-mark_synced id stamp k = lookup-update job_id _ _ (λ j. refl) k s

  pub get-mark_failed :
      (id error : String) (next stamp : ℕ) (k : String)
      → get k (mark_failed id error next stamp s).1
        ≡ Option.map (on (λ j. j.id == id && is_syncing j) (set_failed error next stamp)) (get k s)
  unfolding get mark_failed
  get-mark_failed id error next stamp k = lookup-update job_id _ _ (λ j. refl) k s

  pub get-requeue_dead_letter :
      (id : String) (stamp : ℕ) (k : String)
      → get k (requeue_dead_letter id stamp s).1
        ≡ Option.map (on (λ j. j.id == id && is_dead j) (set_requeued stamp)) (get k s)
  unfolding get requeue_dead_letter
  get-requeue_dead_letter id stamp k = lookup-update job_id _ _ (λ j. refl) k s

module _ (s : JobStore) (u : Unique job_id s) where
  pub claim-won : (id : String) (now : ℕ) → (claim id now s).0 ≡ meets (is_eligible now) (get id s)
  unfolding get claim
  claim-won id now = won-lookup job_id _ id s u

  pub mark_synced-won :
      (id : String) (stamp : ℕ) → (mark_synced id stamp s).0 ≡ meets is_syncing (get id s)
  unfolding get mark_synced
  mark_synced-won id stamp = won-lookup job_id _ id s u

  pub mark_failed-won :
      (id error : String) (next stamp : ℕ)
      → (mark_failed id error next stamp s).0 ≡ meets is_syncing (get id s)
  unfolding get mark_failed
  mark_failed-won id error next stamp = won-lookup job_id _ id s u

  pub requeue_dead_letter-won :
      (id : String) (stamp : ℕ) → (requeue_dead_letter id stamp s).0 ≡ meets is_dead (get id s)
  unfolding get requeue_dead_letter
  requeue_dead_letter-won id stamp = won-lookup job_id _ id s u

  pub create-Unique : (j : TransferJob) {s' : JobStore} → create j s ≡ some s' → Unique job_id s'
  unfolding create
  create-Unique j h = insert-Unique job_id j s u h

  pub claim-Unique : (id : String) (now : ℕ) → Unique job_id (claim id now s).1
  unfolding claim
  claim-Unique id now = update-Unique job_id _ _ (λ j. refl) s u

  pub mark_synced-Unique : (id : String) (stamp : ℕ) → Unique job_id (mark_synced id stamp s).1
  unfolding mark_synced
  mark_synced-Unique id stamp = update-Unique job_id _ _ (λ j. refl) s u

  pub mark_failed-Unique :
      (id error : String) (next stamp : ℕ) → Unique job_id (mark_failed id error next stamp s).1
  unfolding mark_failed
  mark_failed-Unique id error next stamp = update-Unique job_id _ _ (λ j. refl) s u

  pub requeue_dead_letter-Unique :
      (id : String) (stamp : ℕ) → Unique job_id (requeue_dead_letter id stamp s).1
  unfolding requeue_dead_letter
  requeue_dead_letter-Unique id stamp = update-Unique job_id _ _ (λ j. refl) s u
