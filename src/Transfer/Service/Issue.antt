-- ===== src/Transfer/Service/Issue.antt =====
-- From `issueTicket` through the first use to the second.
use deltix_server.Common.{
  ℕ, ◌<◌, ◌≡◌, refl, String, Option, some, inl, inr, string_eq, arith, eq_iff, Result-cases, ok,
  err,
}
use deltix_server.Table.Keys.{Unique}
use deltix_server.Transfer.Types.{
  TransferOperation, PushTicketSyncOptions, Ticket, active, ticket_already_consumed,
}
use deltix_server.Transfer.Store.{TicketStore, ticket_id, create, get, set_status}
use deltix_server.Transfer.Store.Laws.{
  get-create, create-Unique, activate-Unique, get-activate, activate-won,
}
use deltix_server.Transfer.Service.{
  RepoRoleVerifier, new_ticket, issue_ticket, consume_check, consume_outcome, consume_ticket,
}
use deltix_server.Transfer.Service.Consume.{
  Allowed, Consumable, consume_ticket-ok_iff, consume_ticket-spent,
}

pub issue_ticket-created :
    (ttl at later : ℕ) (id username : String) (op : TransferOperation) (repo : String)
    (options : Option PushTicketSyncOptions) (s : TicketStore) (t : Ticket)
    → (issue_ticket ttl at later id username op repo options s).0 ≡ ok t
    → (t ≡ new_ticket ttl at later id username op repo options)
      × (create t s ≡ some (issue_ticket ttl at later id username op repo options s).1)
unfolding issue_ticket
issue_ticket-created ttl at later id username op repo options s t h = ground arith

pub consume_ticket-Unique :
    (verify : Option RepoRoleVerifier) (now : ℕ) (id : String) (op : TransferOperation)
    (repo : String) (s : TicketStore)
    → Unique ticket_id s
    → Unique ticket_id (consume_ticket verify now id op repo s).1
unfolding consume_ticket
consume_ticket-Unique verify now id op repo s u =
    elim (Result-cases (consume_check verify id op repo s)) [
      | inl (a, e) ↦ rw (e, consume_ticket) (activate-Unique s u id op repo now)
      | inr (x, e) ↦ rw (e, consume_ticket) u
    ]

pub consume_ticket-activates :
    (verify : Option RepoRoleVerifier) (now : ℕ) (id : String) (op : TransferOperation)
    (repo : String) (s : TicketStore) (t : Ticket)
    → get id s ≡ some t
    → (consume_ticket verify now id op repo s).0 ≡ ok (set_status active t)
    → Unique ticket_id s
    → get id (consume_ticket verify now id op repo s).1 ≡ some (set_status active t)
unfolding consume_ticket consume_outcome
consume_ticket-activates verify now id op repo s t found h u =
    ground (arith, activate-won s u id op repo now, get-activate s id op repo now id)

-- A ticket that was issued can be used once by its owner before it lapses; it is then active, and
-- the next use, in time and still allowed, finds it consumed.
pub issue_then_consume_twice :
    (verify : Option RepoRoleVerifier) (ttl at later : ℕ) (id username : String)
    (op : TransferOperation) (repo : String) (options : Option PushTicketSyncOptions)
    (s : TicketStore) (t : Ticket) (now again : ℕ)
    → Unique ticket_id s
    → (issue_ticket ttl at later id username op repo options s).0 ≡ ok t
    → now < t.expires_at
    → again < t.expires_at
    → Allowed verify username op repo
    → let s' = (issue_ticket ttl at later id username op repo options s).1 in
      let used = consume_ticket verify now id op repo s' in
      (used.0 ≡ ok (set_status active t))
      × ((consume_ticket verify again id op repo used.1).0 ≡ err ticket_already_consumed)
issue_then_consume_twice verify ttl at later id username op repo options s t now again u h early
      still may =
    let (built, made) = issue_ticket-created ttl at later id username op repo options s t h in
    let s' = (issue_ticket ttl at later id username op repo options s).1 in
    let u' = create-Unique s u t made in
    let stored : get id s' ≡ some t = ground (arith, get-create s t id made, eq_iff t.id id) in
    let fit : Consumable verify now op repo t = rw built (record {
      for_operation = refl;
      for_repo = refl;
      unused = refl;
      in_time = rw built at early;
      allowed = may;
    }) in
    let first =
      (consume_ticket-ok_iff verify now id op repo s' u' (set_status active t)).1
        (t, stored, refl, fit) in
    (
      first,
      consume_ticket-spent verify again id op repo _
          (consume_ticket-Unique verify now id op repo s' u') (set_status active t)
          (consume_ticket-activates verify now id op repo s' t stored first u') fit.for_operation
          fit.for_repo (rw built may) still (λ e. cc),
    )
