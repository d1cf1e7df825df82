-- ===== src/Transfer/Race.antt =====
-- Any number of requests interleave at their calls of the store, each of which is one atomic
-- statement: a history is the sequence of those calls, in the order that the database runs them.
pub mod Lifecycle
pub mod Amid
use mathlib.Core.Option
use deltix_server.Common.{
  ℕ, ◌+◌, ◌≤◌, ◌≡◌, ◌≢◌, refl, Bool, true, false, ◌&&◌, String, List, [], ◌∷◌, Option, none, some,
  string_eq, ◌==◌, if◌then◌else◌, arith, inl, inr, Result, ok, err, ◌⊎◌, eq_iff, Option-cases,
  beq_refl,
}
use deltix_server.Table.Keys.{Unique, meets}
use deltix_server.Transfer.Types.{
  TransferOperation, operation_eq, TicketStatus, issued, active, closed, expired, status_eq, Ticket,
  status_beq_iff,
}
use deltix_server.Transfer.Store.{
  TicketStore, ticket_id, create, get, activate, renew, close, reap_expired, may_activate,
}
use deltix_server.Transfer.Store.Laws.{
  when, get-id, get-create, get-activate, get-renew, get-close, get-reap_expired, activate-won,
  create-free, create-Unique, activate-Unique, renew-Unique, close-Unique, reap_expired-Unique,
}

-- The writes of `TicketStore`; a read changes nothing.
pub data StoreCall : Type 0 where
  creates : Ticket → StoreCall
  activates : String → TransferOperation → String → ℕ → StoreCall
  renews : String → ℕ → ℕ → StoreCall
  closes : String → StoreCall
  reaps : ℕ → StoreCall

unfoldable pub exec : StoreCall → TicketStore → TicketStore
exec (creates t) s = Option.get_or (create t s) s
exec (activates id op repo now) s = (activate id op repo now s).1
exec (renews id e now) s = (renew id e now s).1
exec (closes id) s = (close id s).1
exec (reaps now) s = (reap_expired now s).1

-- Whether a call is an activation of ticket `id` that the store reports as won.
unfoldable pub wins : String → StoreCall → TicketStore → Bool
wins k (activates id op repo now) s = id == k && (activate id op repo now s).0
wins k _ s = false

unfoldable pub exec_all : List StoreCall → TicketStore → TicketStore
exec_all [] s = s
exec_all (c ∷ cs) s = exec_all cs (exec c s)

unfoldable pub count_wins : String → List StoreCall → TicketStore → ℕ
count_wins k [] s = 0
count_wins k (c ∷ cs) s = (if wins k c s then 1 else 0) + count_wins k cs (exec c s)

-- How many activations a ticket can still see: one before it is used, none after.
abbrev pub budget : Option Ticket → ℕ
budget none = 1
budget (some t) = if t.status == issued then 1 else 0

pub exec-Unique :
    (c : StoreCall) (s : TicketStore) → Unique ticket_id s → Unique ticket_id (exec c s)
unfolding exec
exec-Unique (creates t) s u = elim (Option-cases (create t s)) [
  | inl taken ↦ rw taken u
  | inr (s', e) ↦ rw e (create-Unique s u t e)
]
exec-Unique (activates id op repo now) s u = activate-Unique s u id op repo now
exec-Unique (renews id e now) s u = renew-Unique s u id e now
exec-Unique (closes id) s u = close-Unique s u id
exec-Unique (reaps now) s u = reap_expired-Unique s u now

-- One call spends what it wins.
exec-budget :
    (k : String) (c : StoreCall) (s : TicketStore)
    → Unique ticket_id s
    → (if wins k c s then 1 else 0) + budget (get k (exec c s)) ≤ budget (get k s)
unfolding exec wins
exec-budget k (creates t) s u = elim (Option-cases (create t s)) [
  | inl taken ↦ rw taken (omega arith)
  | inr (s', e) ↦ rw e (ground (arith, get-create s t k e, create-free s t e, eq_iff t.id k))
]
exec-budget k (activates id op repo now) s u = elim (Option-cases (get k s)) [
  | inl missing ↦
      ground (arith, activate-won s u id op repo now, get-activate s id op repo now k, eq_iff id k)
  | inr (t, found) ↦ ground (
    arith,
    activate-won s u id op repo now,
    get-activate s id op repo now k,
    eq_iff id k,
    eq_iff t.id id,
    get-id s k found,
    status_beq_iff t.status issued,
  )
]
exec-budget k (renews id e now) s u = ground (arith, get-renew s id e now k)
exec-budget k (closes id) s u = ground (arith, get-close s id k)
exec-budget k (reaps now) s u = ground (arith, get-reap_expired s now k)

budget-le-one : (o : Option Ticket) → budget o ≤ 1
budget-le-one none = omega arith
budget-le-one (some t) = ground arith

count_wins-le-budget :
    (k : String) (cs : List StoreCall) (s : TicketStore)
    → Unique ticket_id s
    → count_wins k cs s ≤ budget (get k s)
unfolding count_wins
count_wins-le-budget k [] s u = omega arith
count_wins-le-budget k (c ∷ cs) s u =
    omega (arith, exec-budget k c s u, count_wins-le-budget k cs (exec c s) (exec-Unique c s u))

-- From a table with unique ids, however the requests interleave, at most one activation of a ticket is ever won, and none once
-- the ticket has left the state `issued`.
pub activated_once :
    (k : String) (cs : List StoreCall) (s : TicketStore)
    → Unique ticket_id s
    → (count_wins k cs s ≤ 1)
      × ((t : Ticket) → get k s ≡ some t → t.status ≢ issued → count_wins k cs s ≡ 0)
activated_once k cs s u = (
  omega (arith, count_wins-le-budget k cs s u, budget-le-one (get k s)),
  λ t found used. ground (arith, count_wins-le-budget k cs s u, status_beq_iff t.status issued),
)
