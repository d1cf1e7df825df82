-- ===== src/Transfer/Race/Lifecycle.antt =====
-- The life of one ticket under any history of store calls.
use mathlib.Core.Option
use deltix_server.Common.{
  ℕ, ◌≡◌, refl, Bool, true, false, String, List, [], ◌∷◌, some, inl, inr, string_eq, ◌==◌, arith,
  eq_iff, Option-cases, Bool-cases, ap, ◌⊎◌, ◌&&◌, ◌∙◌,
}
use deltix_server.Table.Keys.{Unique}
use deltix_server.Transfer.Types.{
  TransferOperation, TicketStatus, issued, active, closed, expired, Ticket, status_beq_iff,
}
use deltix_server.Transfer.Store.{
  TicketStore, ticket_id, create, get, activate, renew, close, may_activate, may_renew, may_close,
  is_overdue, set_status, set_expires_at,
}
use deltix_server.Transfer.Store.Laws.{
  get-create, create-free, get-activate, get-renew, get-close, get-reap_expired, activate-won, when,
  renew-won, close-won,
}
use deltix_server.Transfer.Race.{
  StoreCall, creates, activates, renews, closes, reaps, exec, exec_all, exec-Unique,
}

-- The transitions issued → active → closed, and to expired from the first two.
abbrev pub Advances : TicketStatus → TicketStatus → Type 0
Advances issued _ = Unit
Advances active issued = ⊥
Advances active _ = Unit
Advances closed closed = Unit
Advances closed _ = ⊥
Advances expired expired = Unit
Advances expired _ = ⊥

-- What a ticket grants is fixed when it is issued, and its status only advances.
pub record Evolves (t t' : Ticket) : Type 0 where
  pub same_id : t'.id ≡ t.id
  pub same_username : t'.username ≡ t.username
  pub same_operation : t'.operation ≡ t.operation
  pub same_repo : t'.repo ≡ t.repo
  pub same_issue : t'.issued_at ≡ t.issued_at
  pub same_options : t'.sync_options ≡ t.sync_options
  pub advanced : Advances t.status t'.status

Advances-refl : (a : TicketStatus) → Advances a a
Advances-refl issued = tt
Advances-refl active = tt
Advances-refl closed = tt
Advances-refl expired = tt

Advances-trans : (a b c : TicketStatus) → Advances a b → Advances b c → Advances a c
Advances-trans issued b c h k = tt
Advances-trans active active c h k = k
Advances-trans active closed closed h k = tt
Advances-trans active expired expired h k = tt
Advances-trans closed closed c h k = k
Advances-trans expired expired c h k = k
Advances-trans _ _ _ h k = ground arith

pub Evolves-refl : (t : Ticket) → Evolves t t
Evolves-refl t = record {
  same_id = refl;
  same_username = refl;
  same_operation = refl;
  same_repo = refl;
  same_issue = refl;
  same_options = refl;
  advanced = Advances-refl t.status;
}

pub Evolves-trans : {t u v : Ticket} → Evolves t u → Evolves u v → Evolves t v
Evolves-trans {t} {u} {v} a b = record {
  same_id = b.same_id ∙ a.same_id;
  same_username = b.same_username ∙ a.same_username;
  same_operation = b.same_operation ∙ a.same_operation;
  same_repo = b.same_repo ∙ a.same_repo;
  same_issue = b.same_issue ∙ a.same_issue;
  same_options = b.same_options ∙ a.same_options;
  advanced = Advances-trans t.status u.status v.status a.advanced b.advanced;
}

abbrev pub Kept : String → Ticket → TicketStore → Type 0
Kept k t s = (t' : Ticket) × (get k s ≡ some t') × Evolves t t'

-- An UPDATE keeps a ticket if what it sets is an advance where its condition holds.
update-Kept :
    (k : String) (p : Ticket → Bool) (f : Ticket → Ticket) (s s' : TicketStore) (t : Ticket)
    → get k s' ≡ Option.map (when p f) (get k s)
    → get k s ≡ some t
    → (p t ≡ true → Evolves t (f t))
    → Kept k t s'
update-Kept k p f s s' t e found step = (when p f t, e ∙ ap (Option.map (when p f)) found, evolved)
  where
    evolved : Evolves t (when p f t)
    evolved = elim (Bool-cases (p t)) [
      | inl holds ↦ rw holds (step holds)
      | inr fails ↦ rw fails (Evolves-refl t)
    ]

exec-Kept :
    (k : String) (c : StoreCall) (s : TicketStore) (t : Ticket)
    → get k s ≡ some t
    → Kept k t (exec c s)
unfolding exec
exec-Kept k (creates n) s t found = elim (Option-cases (create n s)) [
  | inl taken ↦ rw taken (t, found, Evolves-refl t)
  | inr (s', e) ↦
      rw e (t, ground (arith, get-create s n k e, create-free s n e, eq_iff n.id k), Evolves-refl t)
]
exec-Kept k (activates id op repo now) s t found =
    update-Kept k (λ t. t.id == id && may_activate op repo now t) (set_status active) s _ t
      (get-activate s id op repo now k) found (λ h. ground (arith, status_beq_iff t.status issued))
exec-Kept k (renews id e now) s t found =
    update-Kept k (λ t. t.id == id && may_renew now t) (set_expires_at e) s _ t
      (get-renew s id e now k) found (λ h. ground (arith, Advances-refl t.status))
exec-Kept k (closes id) s t found =
    update-Kept k (λ t. t.id == id && may_close t) (set_status closed) s _ t (get-close s id k)
      found (λ h. ground (arith, status_beq_iff t.status active))
exec-Kept k (reaps now) s t found =
    update-Kept k (is_overdue now) (set_status expired) s _ t (get-reap_expired s now k) found
      (λ h. ground (arith, status_beq_iff t.status active, status_beq_iff t.status issued))

-- Under any history of calls a stored ticket keeps its id, user, operation, repo, time of issue
-- and options, and its status moves only from issued to active, closed or expired, and from
-- active to closed or expired.
pub exec_all-Evolves :
    (k : String) (cs : List StoreCall) (s : TicketStore) (t : Ticket)
    → get k s ≡ some t
    → (t' : Ticket) × (get k (exec_all cs s) ≡ some t') × Evolves t t'
unfolding exec_all
exec_all-Evolves k [] s t found = (t, found, Evolves-refl t)
exec_all-Evolves k (c ∷ cs) s t found =
    let (u, e, a) = exec-Kept k c s t found in
    let (v, e', b) = exec_all-Evolves k cs (exec c s) u e in (v, e', Evolves-trans a b)

pub exec_all-Unique :
    (cs : List StoreCall) (s : TicketStore) → Unique ticket_id s → Unique ticket_id (exec_all cs s)
unfolding exec_all
exec_all-Unique [] s u = u
exec_all-Unique (c ∷ cs) s u = exec_all-Unique cs (exec c s) (exec-Unique c s u)

-- In a table with unique ids, a ticket that is closed or expired is dead: after any history of calls no activation, renewal or
-- closing of it is won.
pub finished_for_good :
    (k : String) (cs : List StoreCall) (s : TicketStore) (t : Ticket)
    → Unique ticket_id s
    → get k s ≡ some t
    → (t.status ≡ closed) ⊎ (t.status ≡ expired)
    → let s' = exec_all cs s in
      ((op : TransferOperation) (repo : String) (now : ℕ) → (activate k op repo now s').0 ≡ false)
      × ((e now : ℕ) → (renew k e now s').0 ≡ false)
      × ((close k s').0 ≡ false)
finished_for_good k cs s t u found over =
    let (t', e, a) = exec_all-Evolves k cs s t found in
    let u' = exec_all-Unique cs s u in
    let s' = exec_all cs s in
    (
      λ op repo now. ground (arith, activate-won s' u' k op repo now, a.advanced, e),
      λ x now. ground (arith, renew-won s' u' k x now, a.advanced, e),
      ground (arith, close-won s' u' k, a.advanced, e),
    )
