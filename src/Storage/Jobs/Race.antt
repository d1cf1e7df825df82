-- ===== src/Storage/Jobs/Race.antt =====
-- Several sync workers on one table: a history of store calls, in the order that the database runs
-- their statements. `claims` is the conditional UPDATE on which a worker's claim rests.
use mathlib.Core.Option
use deltix_server.Common.{
  ℕ, ◌+◌, ◌≤◌, ◌≡◌, refl, Bool, false, ◌&&◌, String, List, [], ◌∷◌, Option, none, some, string_eq,
  ◌==◌, if◌then◌else◌, arith, eq_iff, inl, inr, Option-cases,
}
use deltix_server.Table.Keys.{Unique}
use deltix_server.Storage.Types.{TransferJob, staged, syncing, job_status_eq}
use deltix_server.Storage.Jobs.{
  JobStore, job_id, create, get, claim, mark_synced, mark_failed, requeue_dead_letter,
}
use deltix_server.Storage.Jobs.Laws.{
  get-id, get-create, create-free, get-claim, get-mark_synced, get-mark_failed,
  get-requeue_dead_letter, claim-won, mark_synced-won, mark_failed-won, create-Unique, claim-Unique,
  mark_synced-Unique, mark_failed-Unique, requeue_dead_letter-Unique,
}

-- The writes of `TransferJobStore`; a new job is staged.
pub data JobCall : Type 0 where
  creates : (j : TransferJob) → j.status ≡ staged → JobCall
  claims : String → ℕ → JobCall
  syncs : String → ℕ → JobCall
  fails : (id error : String) (next stamp : ℕ) → JobCall
  requeues : String → ℕ → JobCall

unfoldable pub exec : JobCall → JobStore → JobStore
exec (creates j h) s = Option.get_or (create j s) s
exec (claims id now) s = (claim id now s).1
exec (syncs id stamp) s = (mark_synced id stamp s).1
exec (fails id error next stamp) s = (mark_failed id error next stamp s).1
exec (requeues id stamp) s = (requeue_dead_letter id stamp s).1

unfoldable pub exec_all : List JobCall → JobStore → JobStore
exec_all [] s = s
exec_all (c ∷ cs) s = exec_all cs (exec c s)

-- A claim of job `k` that is won.
unfoldable pub takes : String → JobCall → JobStore → Bool
takes k (claims id now) s = id == k && (claim id now s).0
takes k _ s = false

-- A worker's report on job `k` that is won.
unfoldable pub gives_back : String → JobCall → JobStore → Bool
gives_back k (syncs id stamp) s = id == k && (mark_synced id stamp s).0
gives_back k (fails id error next stamp) s = id == k && (mark_failed id error next stamp s).0
gives_back k _ s = false

unfoldable pub tally : (String → JobCall → JobStore → Bool) → String → List JobCall → JobStore → ℕ
tally p k [] s = 0
tally p k (c ∷ cs) s = (if p k c s then 1 else 0) + tally p k cs (exec c s)

-- The workers that hold a job: one while it is being synced.
abbrev pub holders : Option TransferJob → ℕ
holders none = 0
holders (some j) = if j.status == syncing then 1 else 0

pub exec-Unique : (c : JobCall) (s : JobStore) → Unique job_id s → Unique job_id (exec c s)
unfolding exec
exec-Unique (creates j h) s u = elim (Option-cases (create j s)) [
  | inl taken ↦ rw taken u
  | inr (s', e) ↦ rw e (create-Unique s u j e)
]
exec-Unique (claims id now) s u = claim-Unique s u id now
exec-Unique (syncs id stamp) s u = mark_synced-Unique s u id stamp
exec-Unique (fails id error next stamp) s u = mark_failed-Unique s u id error next stamp
exec-Unique (requeues id stamp) s u = requeue_dead_letter-Unique s u id stamp

-- One call passes a hold on, or makes or ends one that it counts.
exec-holders :
    (k : String) (c : JobCall) (s : JobStore)
    → Unique job_id s
    → (if takes k c s then 1 else 0) + holders (get k s)
      ≡ (if gives_back k c s then 1 else 0) + holders (get k (exec c s))
unfolding exec takes gives_back
exec-holders k (creates j h) s u = elim (Option-cases (create j s)) [
  | inl taken ↦ rw taken refl
  | inr (s', e) ↦ rw e (ground (arith, get-create s j k e, create-free s j e, eq_iff j.id k, h))
]
exec-holders k (claims id now) s u = elim (Option-cases (get k s)) [
  | inl missing ↦ ground (arith, claim-won s u id now, get-claim s id now k, eq_iff id k)
  | inr (j, e) ↦
      ground (
        arith,
        claim-won s u id now,
        get-claim s id now k,
        eq_iff id k,
        eq_iff j.id id,
        get-id s k e,
      )
]
exec-holders k (syncs id stamp) s u = elim (Option-cases (get k s)) [
  | inl missing ↦
      ground (arith, mark_synced-won s u id stamp, get-mark_synced s id stamp k, eq_iff id k)
  | inr (j, e) ↦ ground (
    arith,
    mark_synced-won s u id stamp,
    get-mark_synced s id stamp k,
    eq_iff id k,
    eq_iff j.id id,
    get-id s k e,
  )
]
exec-holders k (fails id error next stamp) s u = elim (Option-cases (get k s)) [
  | inl missing ↦ ground (
    arith,
    mark_failed-won s u id error next stamp,
    get-mark_failed s id error next stamp k,
    eq_iff id k,
  )
  | inr (j, e) ↦ ground (
    arith,
    mark_failed-won s u id error next stamp,
    get-mark_failed s id error next stamp k,
    eq_iff id k,
    eq_iff j.id id,
    get-id s k e,
  )
]
exec-holders k (requeues id stamp) s u = ground (arith, get-requeue_dead_letter s id stamp k)

balance :
    (k : String) (cs : List JobCall) (s : JobStore)
    → Unique job_id s
    → tally takes k cs s + holders (get k s)
      ≡ tally gives_back k cs s + holders (get k (exec_all cs s))
unfolding tally exec_all
balance k [] s u = refl
balance k (c ∷ cs) s u =
    omega (arith, exec-holders k c s u, balance k cs (exec c s) (exec-Unique c s u))

holders-le-one : (o : Option TransferJob) → holders o ≤ 1
holders-le-one none = omega arith
holders-le-one (some j) = ground arith

-- From a table with unique ids, whatever the workers do in whatever order, the claims won on a job and the reports won on it
-- balance: claims and first holders together are reports and last holders together, so the claims
-- won exceed the reports won by one at most.
pub claims_balance :
    (k : String) (cs : List JobCall) (s : JobStore)
    → Unique job_id s
    → (tally takes k cs s + holders (get k s)
        ≡ tally gives_back k cs s + holders (get k (exec_all cs s)))
      × (tally takes k cs s ≤ tally gives_back k cs s + 1)
claims_balance k cs s u =
    (balance k cs s u, omega (arith, balance k cs s u, holders-le-one (get k (exec_all cs s))))
