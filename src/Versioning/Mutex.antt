-- ===== src/Versioning/Mutex.antt =====
-- contexts/versioning/repo-branch-mutex.ts. The calls of `runExclusive` are a list, the newest first,
-- and a call's number is how many were made before it. A step is what one turn of the event loop
-- does for a call: it takes its place, its action begins, or its action ends.
pub mod Order
pub mod Progress
use deltix_server.Common.{
  ℕ, suc, Bool, true, false, not, ◌&&◌, String, List, [], ◌∷◌, Option, none, some, if◌then◌else◌,
  ◌==◌, string_eq, nat_eq, length,
}

pub data Phase : Type 0 where
  waiting running finished : Phase

abbrev pub is_waiting : Phase → Bool
is_waiting waiting = true
is_waiting _ = false

abbrev pub is_running : Phase → Bool
is_running running = true
is_running _ = false

abbrev pub is_finished : Phase → Bool
is_finished finished = true
is_finished _ = false

-- The promises of a call: `current`, and the one that the map keeps, `previous.then(() => current)`.
pub data Tail : Type 0 where
  current chained : (call : ℕ) → Tail

-- `===` on promises.
abbrev pub same_promise : Tail → Tail → Bool
same_promise (current i) (current j) = i == j
same_promise (chained i) (chained j) = i == j
same_promise _ _ = false

pub record Call : Type 0 where
  pub repo_id : String
  pub phase : Phase
  pub previous : Option Tail

pub record RepoBranchMutex : Type 0 where
  pub calls : List Call
  pub tails : String → Option Tail

abbrev pub new_mutex : RepoBranchMutex
new_mutex = record { calls = []; tails = λ _. none }

-- A `chained` promise settles when the call's `previous` has and the call has released; `current` when
-- it has released.
unfoldable pub settled : Option Tail → List Call → Bool
settled none calls = true
settled (some tail) [] = false
settled (some (current i)) (c ∷ calls) =
    if i == length calls then is_finished c.phase else settled (some (current i)) calls
settled (some (chained i)) (c ∷ calls) =
    if i == length calls
    then is_finished c.phase && settled c.previous calls
    else settled (some (chained i)) calls

-- `tails.get`, `tails.set`, and the call waits for what it got.
unfoldable pub enqueue : String → RepoBranchMutex → RepoBranchMutex
enqueue repo_id m = record {
  calls = record { repo_id = repo_id; phase = waiting; previous = m.tails repo_id } ∷ m.calls;
  tails = λ k. if k == repo_id then some (chained (length m.calls)) else m.tails k;
}

-- `await previous` is over and the action begins.
unfoldable pub begin_at : ℕ → List Call → List Call
unfolding settled
begin_at i [] = []
begin_at i (c ∷ calls) =
    if i == length calls
    then (if is_waiting c.phase && settled c.previous calls
        then record c { phase = running }
        else c)
      ∷ calls
    else c ∷ begin_at i calls

unfoldable pub begin : ℕ → RepoBranchMutex → RepoBranchMutex
unfolding begin_at
begin i m = record m { calls = begin_at i m.calls }

-- `release()`, for a call whose action runs.
abbrev pub release_at : ℕ → List Call → List Call
release_at i [] = []
release_at i (c ∷ calls) =
    if i == length calls
    then (if is_running c.phase then record c { phase = finished } else c) ∷ calls
    else c ∷ release_at i calls

-- The repository of a call whose action runs.
abbrev pub running_repo : ℕ → List Call → Option String
running_repo i [] = none
running_repo i (c ∷ calls) =
    if i == length calls
    then (if is_running c.phase then some c.repo_id else none)
    else running_repo i calls

abbrev pub drop_if_current : ℕ → Option String → (String → Option Tail) → String → Option Tail
drop_if_current i none tails k = tails k
drop_if_current i (some repo_id) tails k = elim (tails repo_id) [
  | none ↦ tails k
  | some tail ↦ if same_promise tail (current i) && k == repo_id then none else tails k
]

-- The `finally` block, whether the action returned or threw.
unfoldable pub finish : ℕ → RepoBranchMutex → RepoBranchMutex
finish i m = record {
  calls = release_at i m.calls;
  tails = drop_if_current i (running_repo i m.calls) m.tails;
}

pub data Step : Type 0 where
  enqueues : (repo_id : String) → Step
  begins finishes : (call : ℕ) → Step

abbrev pub step : Step → RepoBranchMutex → RepoBranchMutex
step (enqueues repo_id) = enqueue repo_id
step (begins i) = begin i
step (finishes i) = finish i

abbrev pub steps : List Step → RepoBranchMutex → RepoBranchMutex
steps [] m = m
steps (s ∷ rest) m = steps rest (step s m)
