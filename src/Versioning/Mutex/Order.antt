-- ===== src/Versioning/Mutex/Order.antt =====
-- The calls on one repository run one at a time, in the order in which they were made, and none is
-- left waiting for ever for want of a step.
use deltix_server.Common.{
  ℕ, suc, ◌≡◌, ◌≤◌, ◌<◌, refl, ap, sym, ◌∙◌, ◌⊎◌, inl, inr, Bool, true, false, not, ◌&&◌, ◌||◌,
  String, List, [], ◌∷◌, Option, none, some, if◌then◌else◌, ◌==◌, string_eq, nat_eq, length, arith,
  eq_iff, Bool-cases, Option-cases, beq_refl,
}
use deltix_server.Versioning.Mutex.{
  Phase, waiting, running, finished, is_waiting, is_running, is_finished, Tail, chained, Call,
  settled, begin_at, release_at,
}

-- The promise of the newest call on a repository.
abbrev pub newest : String → List Call → Option Tail
newest r [] = none
newest r (c ∷ calls) = if r == c.repo_id then some (chained (length calls)) else newest r calls

abbrev pub all_finished : String → List Call → Bool
all_finished r [] = true
all_finished r (c ∷ calls) = (not (r == c.repo_id) || is_finished c.phase) && all_finished r calls

abbrev pub count_running : String → List Call → ℕ
count_running r [] = 0
count_running r (c ∷ calls) =
    if r == c.repo_id && is_running c.phase
    then suc (count_running r calls)
    else count_running r calls

-- A call waits for the newest call before it on its repository, and once its action has begun every
-- call before it on that repository has finished.
abbrev pub InOrder : List Call → Type 0
InOrder [] = Unit
InOrder (c ∷ calls) =
    (c.previous ≡ newest c.repo_id calls)
    × (is_waiting c.phase ≡ false → all_finished c.repo_id calls ≡ true)
    × InOrder calls

pub Phase-cases : (p : Phase) → (p ≡ waiting) ⊎ ((p ≡ running) ⊎ (p ≡ finished))
Phase-cases waiting = inl refl
Phase-cases running = inr (inl refl)
Phase-cases finished = inr (inr refl)

pub newest_below :
    (r : String) (calls : List Call) {t : Tail}
    → newest r calls ≡ some t
    → (i : ℕ) × (t ≡ chained i) × (i < length calls)
newest_below r [] h = absurd (cc h)
newest_below r (c ∷ calls) {t} h = elim (Bool-cases (r == c.repo_id)) [
  | inl here ↦ (length calls, ground (arith, h, here), omega arith)
  | inr other ↦
      let (i, e, below) = newest_below r calls {t = t} (ground (arith, h, other)) in
      (i, e, omega (arith, below))
]

settled_top :
    (c : Call) (calls : List Call)
    → settled (some (chained (length calls))) (c ∷ calls)
      ≡ (is_finished c.phase && settled c.previous calls)
unfolding settled
settled_top c calls = rw (beq_refl (length calls)) refl

settled_below :
    (i : ℕ) (c : Call) (calls : List Call)
    → (i == length calls) ≡ false
    → settled (some (chained i)) (c ∷ calls) ≡ settled (some (chained i)) calls
unfolding settled
settled_below i c calls e = rw e refl

settled-none : (calls : List Call) → settled none calls ≡ true
unfolding settled
settled-none calls = refl

pub below_beq : (i n : ℕ) → i < n → (i == n) ≡ false
below_beq i n h = ground (arith, h)

-- The newest call's promise has settled exactly when every call on the repository has finished.
pub settled-newest :
    (r : String) (calls : List Call)
    → InOrder calls
    → settled (newest r calls) calls ≡ all_finished r calls
unfolding settled
settled-newest r [] h = refl
settled-newest r (c ∷ calls) h = elim (Bool-cases (r == c.repo_id)) [
  | inl here ↦
      let q = ap (λ k. settled (newest k calls) calls) ((eq_iff r c.repo_id).0 here) in
      let before = ap (λ t. settled t calls) h.0 ∙ sym q ∙ settled-newest r calls h.2 in
      rw here (settled_top c calls ∙ ap (λ b. is_finished c.phase && b) before)
  | inr other ↦ elim (Option-cases (newest r calls)) [
    | inl no_call ↦
        rw (other, no_call)
          (sym (settled-none calls)
            ∙ ap (λ t. settled t calls) (sym no_call)
            ∙ settled-newest r calls h.2)
    | inr (t, there) ↦
        let (i, e, below) = newest_below r calls there in
        let at = there ∙ ap some e in
        rw (other, at)
          (settled_below i c calls (below_beq i (length calls) below)
            ∙ ap (λ q. settled q calls) (sym at)
            ∙ settled-newest r calls h.2)
  ]
]

pub length-begin_at : (i : ℕ) (calls : List Call) → length (begin_at i calls) ≡ length calls
unfolding begin_at
length-begin_at i [] = refl
length-begin_at i (c ∷ calls) = ground (arith, length-begin_at i calls)

length-release_at : (i : ℕ) (calls : List Call) → length (release_at i calls) ≡ length calls
length-release_at i [] = refl
length-release_at i (c ∷ calls) = ground (arith, length-release_at i calls)

pub newest-begin_at :
    (i : ℕ) (r : String) (calls : List Call) → newest r (begin_at i calls) ≡ newest r calls
unfolding begin_at
newest-begin_at i r [] = refl
newest-begin_at i r (c ∷ calls) = elim (Bool-cases (i == length calls)) [
  | inr other ↦ rw (other, begin_at, length-begin_at i calls, newest-begin_at i r calls) refl
  | inl here ↦ elim (Bool-cases (is_waiting c.phase && settled c.previous calls)) [
    | inl goes ↦ rw (here, goes, begin_at) refl
    | inr stays ↦ rw (here, stays, begin_at) refl
  ]
]

pub newest-release_at :
    (i : ℕ) (r : String) (calls : List Call) → newest r (release_at i calls) ≡ newest r calls
newest-release_at i r [] = refl
newest-release_at i r (c ∷ calls) =
    ground (arith, newest-release_at i r calls, length-release_at i calls)

and_left : (a b : Bool) → (a && b) ≡ true → a ≡ true
and_left true b h = refl
and_left false b h = cc h

waiting_unfinished : (p : Phase) → is_waiting p ≡ true → is_finished p ≡ false
waiting_unfinished waiting e = refl
waiting_unfinished running e = refl
waiting_unfinished finished e = cc e

all_finished-begin_at :
    (i : ℕ) (r : String) (calls : List Call)
    → all_finished r (begin_at i calls) ≡ all_finished r calls
unfolding begin_at
all_finished-begin_at i r [] = refl
all_finished-begin_at i r (c ∷ calls) = elim (Bool-cases (i == length calls)) [
  | inr other ↦ rw (other, begin_at, all_finished-begin_at i r calls) refl
  | inl here ↦ elim (Bool-cases (is_waiting c.phase && settled c.previous calls)) [
    | inl goes ↦ rw (here, goes, begin_at, waiting_unfinished c.phase (and_left _ _ goes)) refl
    | inr stays ↦ rw (here, stays, begin_at) refl
  ]
]

all_finished-release_at :
    (i : ℕ) (r : String) (calls : List Call)
    → all_finished r calls ≡ true
    → all_finished r (release_at i calls) ≡ true
all_finished-release_at i r [] h = refl
all_finished-release_at i r (c ∷ calls) h = elim (Phase-cases c.phase) [
  | inl w ↦ ground (arith, all_finished-release_at i r calls, w, h)
  | inr (inl w) ↦ ground (arith, all_finished-release_at i r calls, w, h)
  | inr (inr w) ↦ ground (arith, all_finished-release_at i r calls, w, h)
]

pub begin_at-InOrder : (i : ℕ) (calls : List Call) → InOrder calls → InOrder (begin_at i calls)
unfolding begin_at
begin_at-InOrder i [] h = tt
begin_at-InOrder i (c ∷ calls) h = elim (Bool-cases (i == length calls)) [
  | inr other ↦
      rw (other, begin_at)
        (
          h.0 ∙ sym (newest-begin_at i c.repo_id calls),
          (λ busy. all_finished-begin_at i c.repo_id calls ∙ h.1 busy),
          begin_at-InOrder i calls h.2,
        )
  | inl here ↦ elim (Bool-cases (is_waiting c.phase && settled c.previous calls)) [
    | inr stays ↦ rw (here, stays, begin_at) h
    | inl goes ↦
        let ready = settled-newest c.repo_id calls h.2 in
        let at = ap (λ t. settled t calls) h.0 in
        rw (here, goes, begin_at) (h.0, (λ _. ground (arith, ready, at, goes)), h.2)
  ]
]

pub release_at-InOrder : (i : ℕ) (calls : List Call) → InOrder calls → InOrder (release_at i calls)
release_at-InOrder i [] h = tt
release_at-InOrder i (c ∷ calls) h = elim (Bool-cases (i == length calls)) [
  | inr other ↦
      rw (other, release_at)
        (
          h.0 ∙ sym (newest-release_at i c.repo_id calls),
          (λ busy. all_finished-release_at i c.repo_id calls (h.1 busy)),
          release_at-InOrder i calls h.2,
        )
  | inl here ↦ elim (Bool-cases (is_running c.phase)) [
    | inr stays ↦ rw (here, stays, release_at) h
    | inl ends ↦ rw (here, ends, release_at) (h.0, (λ _. h.1 (running_busy c.phase ends)), h.2)
  ]
]
  where
    running_busy : (p : Phase) → is_running p ≡ true → is_waiting p ≡ false
    running_busy waiting e = cc e
    running_busy running e = refl
    running_busy finished e = refl

-- At most one runs.
finished_none :
    (r : String) (calls : List Call) → all_finished r calls ≡ true → count_running r calls ≡ 0
finished_none r [] h = refl
finished_none r (c ∷ calls) h = elim (Phase-cases c.phase) [
  | inl w ↦ ground (arith, finished_none r calls, h, w)
  | inr (inl w) ↦ ground (arith, finished_none r calls, h, w)
  | inr (inr w) ↦ ground (arith, finished_none r calls, h, w)
]

pub count_running-le : (r : String) (calls : List Call) → InOrder calls → count_running r calls ≤ 1
count_running-le r [] h = omega arith
count_running-le r (c ∷ calls) h = elim (Bool-cases (r == c.repo_id)) [
  | inr other ↦ ground (arith, count_running-le r calls h.2, other)
  | inl here ↦
      let q = ap (λ k. all_finished k calls) ((eq_iff r c.repo_id).0 here) in
      elim (Phase-cases c.phase) [
        | inl w ↦ ground (arith, count_running-le r calls h.2, w)
        | inr (inl w) ↦
            let before = q ∙ h.1 (ap is_waiting w) in
            ground (arith, finished_none r calls before, here, w)
        | inr (inr w) ↦ ground (arith, count_running-le r calls h.2, w)
      ]
]
