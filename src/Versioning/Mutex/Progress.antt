-- ===== src/Versioning/Mutex/Progress.antt =====
-- What holds in every history of the mutex: exclusion, order, progress, and the map that only grows.
use deltix_server.Common.{
  ℕ, ◌≡◌, ◌≤◌, ◌<◌, refl, ap, sym, ◌∙◌, inl, inr, false, String, List, [], ◌∷◌, Option, none, some,
  ◌==◌, string_eq, nat_eq, length, arith, eq_iff, beq_refl, Bool-cases, Option-cases,
}
use deltix_server.Versioning.Mutex.{
  Call, RepoBranchMutex, new_mutex, settled, enqueue, begin_at, begin, running_repo,
  drop_if_current, finish, Step, enqueues, begins, finishes, steps,
}
use deltix_server.Versioning.Mutex.Order.{
  newest, all_finished, count_running, InOrder, Phase-cases, newest_below, settled-newest,
  below_beq, length-begin_at, newest-begin_at, newest-release_at, begin_at-InOrder,
  release_at-InOrder, count_running-le,
}

-- The calls are in order, and the map has the promise of the newest call on each repository.
record Ordered (m : RepoBranchMutex) : Type 0 where
  in_order : InOrder m.calls
  tail : (r : String) → m.tails r ≡ newest r m.calls

enqueue-Ordered : (repo_id : String) (m : RepoBranchMutex) → Ordered m → Ordered (enqueue repo_id m)
unfolding enqueue
enqueue-Ordered repo_id m h = record {
  in_order = (h.tail repo_id, (λ e. absurd (cc e)), h.in_order);
  tail = λ r. ground (arith, h.tail r);
}

begin-Ordered : (i : ℕ) (m : RepoBranchMutex) → Ordered m → Ordered (begin i m)
unfolding begin
begin-Ordered i m h = record {
  in_order = begin_at-InOrder i m.calls h.in_order;
  tail = λ r. h.tail r ∙ sym (newest-begin_at i r m.calls);
}

never_dropped :
    (i : ℕ) (o : Option String) (m : RepoBranchMutex) (r : String)
    → Ordered m
    → drop_if_current i o m.tails r ≡ m.tails r
never_dropped i none m r h = refl
never_dropped i (some repo_id) m r h = elim (Option-cases (newest repo_id m.calls)) [
  | inl no_call ↦ rw (h.tail repo_id ∙ no_call, drop_if_current) refl
  | inr (t, there) ↦
      let (j, e, below) = newest_below repo_id m.calls there in
      rw (h.tail repo_id ∙ there ∙ ap some e, drop_if_current) refl
]

finish-Ordered : (i : ℕ) (m : RepoBranchMutex) → Ordered m → Ordered (finish i m)
unfolding finish
finish-Ordered i m h = record {
  in_order = release_at-InOrder i m.calls h.in_order;
  tail = λ r.
      never_dropped i (running_repo i m.calls) m r h
      ∙ h.tail r
      ∙ sym (newest-release_at i r m.calls);
}

steps-Ordered : (history : List Step) (m : RepoBranchMutex) → Ordered m → Ordered (steps history m)
steps-Ordered [] m h = h
steps-Ordered (enqueues r ∷ rest) m h = steps-Ordered rest (enqueue r m) (enqueue-Ordered r m h)
steps-Ordered (begins i ∷ rest) m h = steps-Ordered rest (begin i m) (begin-Ordered i m h)
steps-Ordered (finishes i ∷ rest) m h = steps-Ordered rest (finish i m) (finish-Ordered i m h)

new_mutex-Ordered : Ordered new_mutex
new_mutex-Ordered = record { in_order = tt; tail = λ r. refl }

-- In every history of calls on any repositories, at most one action runs on a repository; an action
-- that runs or has run had every earlier call on its repository finished; and the map still has an
-- entry for every repository that was ever called for.
pub steps-exclusive :
    (history : List Step) (repo_id : String)
    → let m = steps history new_mutex in
      (count_running repo_id m.calls ≤ 1)
      × InOrder m.calls
      × (m.tails repo_id ≡ newest repo_id m.calls)
steps-exclusive history repo_id =
    let h = steps-Ordered history new_mutex new_mutex-Ordered in
    (
      count_running-le repo_id (steps history new_mutex).calls h.in_order,
      h.in_order,
      h.tail repo_id,
    )

oldest_begins :
    (r : String) (calls : List Call)
    → InOrder calls
    → all_finished r calls ≡ false
    → (i : ℕ) × (i < length calls) × (running_repo i (begin_at i calls) ≡ some r)
unfolding begin_at
oldest_begins r [] h u = absurd (cc u)
oldest_begins r (c ∷ calls) h u = elim (Bool-cases (all_finished r calls)) [
  | inr more ↦
      let (i, below, runs) = oldest_begins r calls h.2 more in
      let apart = below_beq i (length calls) below in
      (i, omega (arith, below), rw (apart, begin_at, length-begin_at i calls, apart) runs)
  | inl before ↦ elim (Bool-cases (r == c.repo_id)) [
    | inr other ↦ absurd (ground (arith, u, before, other))
    | inl here ↦
        let e = (eq_iff r c.repo_id).0 here in
        let n = beq_refl (length calls) in
        elim (Phase-cases c.phase) [
          | inr (inr w) ↦ absurd (ground (arith, u, before, w))
          | inr (inl w) ↦ (length calls, omega arith, rw (n, w, begin_at, n) (ap some (sym e)))
          | inl w ↦
              let ready =
                ap (λ t. settled t calls) h.0
                ∙ settled-newest c.repo_id calls h.2
                ∙ ap (λ k. all_finished k calls) (sym e)
                ∙ before in
              (length calls, omega arith, rw (n, w, ready, begin_at, n) (ap some (sym e)))
        ]
  ]
]

-- In every history, while some call on a repository has not finished, one of them runs or runs as
-- soon as its turn comes: nothing that the others do can leave them all waiting.
pub steps_progress :
    (history : List Step) (repo_id : String)
    → all_finished repo_id (steps history new_mutex).calls ≡ false
    → (call : ℕ) × (running_repo call (begin call (steps history new_mutex)).calls ≡ some repo_id)
unfolding begin
steps_progress history repo_id u =
    let h = steps-Ordered history new_mutex new_mutex-Ordered in
    let (i, below, runs) = oldest_begins repo_id (steps history new_mutex).calls h.in_order u in
    (i, runs)
