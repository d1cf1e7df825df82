-- ===== src/Versioning/MutexTests.antt =====
-- Two calls on one repository and one on another.
use deltix_server.Common.{ℕ, ◌≡◌, ◌≤◌, refl, List, [], ◌∷◌, some}
use deltix_server.Versioning.Mutex.{
  new_mutex, enqueue, begin, finish, running_repo, Step, enqueues, begins, finishes, steps,
}
use deltix_server.Versioning.Mutex.Order.{newest, count_running, InOrder}
use deltix_server.Versioning.Mutex.Progress.{steps-exclusive, steps_progress}

abbrev history : List Step
history =
    enqueues "shop" ∷ enqueues "books" ∷ enqueues "shop" ∷ begins 2 ∷ begins 0 ∷ finishes 0 ∷ []

steps-exclusive_example :
    let m = steps history new_mutex in
    (count_running "shop" m.calls ≤ 1) × InOrder m.calls × (m.tails "shop" ≡ newest "shop" m.calls)
steps-exclusive_example = steps-exclusive history "shop"

steps_progress_example :
    (call : ℕ) × (running_repo call (begin call (steps history new_mutex)).calls ≡ some "shop")
unfolding finish begin enqueue
steps_progress_example = steps_progress history "shop" refl

-- The second call does not begin before the first has finished.
begins_in_turn :
    (count_running "shop"
        (steps (enqueues "shop" ∷ enqueues "shop" ∷ begins 1 ∷ []) new_mutex).calls
      ≡ 0)
    × (count_running "shop"
          (steps
            (enqueues "shop" ∷ begins 0 ∷ finishes 0 ∷ enqueues "shop" ∷ begins 1 ∷ [])
            new_mutex).calls
        ≡ 1)
unfolding begin enqueue finish
begins_in_turn = (refl, refl)
