-- ===== src/Transfer/Service/Renew.antt =====
-- When `TicketService.renewTicket` and `closeTicket` succeed, and what they leave behind.
use deltix_server.Common.{
  ℕ, ◌+◌, ◌<◌, ◌≤◌, ◌≡◌, ◌≢◌, String, Option, none, some, inl, inr, string_eq, arith, eq_iff,
  Option-cases, ok, err, if◌then◌else◌, ◌==◌,
}
use deltix_server.Table.Keys.{Unique}
use deltix_server.Transfer.Types.{
  Ticket, active, TransferError, ticket_not_found, ticket_expired, ticket_role_revoked,
  status_beq_iff,
}
use deltix_server.Transfer.Store.{TicketStore, ticket_id, get, set_expires_at}
use deltix_server.Transfer.Store.Laws.{get-id, get-renew, renew-won}
use deltix_server.Transfer.Service.{RepoRoleVerifier, ttl_ms, renew_ticket}
use deltix_server.Transfer.Service.Consume.{Allowed, assert_role_iff, assert_role_error}

-- The conditions under which a heartbeat extends a ticket.
pub record Renewable (verify : Option RepoRoleVerifier) (now : ℕ) (t : Ticket) : Type 0 where
  pub in_use : t.status ≡ active
  pub in_time : now < t.expires_at
  pub allowed : Allowed verify t.username t.operation t.repo

-- Why a heartbeat on a stored row is refused.
abbrev pub Declined : Option RepoRoleVerifier → ℕ → Option Ticket → TransferError → Type 0
Declined verify now none e = e ≡ ticket_not_found
Declined verify now (some t) ticket_role_revoked = ¬ Allowed verify t.username t.operation t.repo
Declined verify now (some t) ticket_not_found =
    Allowed verify t.username t.operation t.repo × (t.status ≢ active)
Declined verify now (some t) ticket_expired =
    Allowed verify t.username t.operation t.repo × (t.status ≡ active) × (t.expires_at ≤ now)
Declined verify now (some t) _ = ⊥

module _ (verify : Option RepoRoleVerifier) (ttl now : ℕ) (id : String) (s : TicketStore)
    (u : Unique ticket_id s) where
  -- Where ticket ids are unique, a heartbeat on an active ticket that is in time and whose owner still has the role answers with
  -- the expiry one full term from now, writes it, and touches no other ticket.
  pub renew_ticket-ok :
      (t : Ticket)
      → get id s ≡ some t
      → Renewable verify now t
      → ((renew_ticket verify ttl now id s).0 ≡ ok (now + ttl_ms ttl))
        × ((k : String)
            → get k (renew_ticket verify ttl now id s).1
              ≡ (if k == id then some (set_expires_at (now + ttl_ms ttl) t) else get k s))
  unfolding renew_ticket
  renew_ticket-ok t found r = (
    ground (
      arith,
      assert_role_iff verify t.username t.operation t.repo,
      renew-won s u id (now + ttl_ms ttl) now,
      status_beq_iff t.status active,
    ),
    λ k. elim (Option-cases (get k s)) [
      | inl missing ↦ ground (
        arith,
        assert_role_iff verify t.username t.operation t.repo,
        get-renew s id (now + ttl_ms ttl) now k,
        eq_iff k id,
      )
      | inr (v, e) ↦ ground (
        arith,
        assert_role_iff verify t.username t.operation t.repo,
        get-renew s id (now + ttl_ms ttl) now k,
        get-id s k e,
        eq_iff k id,
        eq_iff v.id id,
        status_beq_iff t.status active,
      )
    ],
  )

  by_cause :
      (e : TransferError) (t : Ticket)
      → get id s ≡ some t
      → (renew_ticket verify ttl now id s).0 ≡ err e
      → Declined verify now (some t) e
  unfolding renew_ticket
  by_cause ticket_not_found t found h = ground (
    arith,
    assert_role_iff verify t.username t.operation t.repo,
    assert_role_error verify t.username t.operation t.repo,
    renew-won s u id (now + ttl_ms ttl) now,
    get-renew s id (now + ttl_ms ttl) now id,
    status_beq_iff t.status active,
  )
  by_cause _ t found h = ground (
    arith,
    assert_role_iff verify t.username t.operation t.repo,
    assert_role_error verify t.username t.operation t.repo,
    renew-won s u id (now + ttl_ms ttl) now,
    get-renew s id (now + ttl_ms ttl) now id,
    status_beq_iff t.status active,
  )

  cause_of :
      (e : TransferError)
      → (renew_ticket verify ttl now id s).0 ≡ err e
      → Declined verify now (get id s) e
  unfolding renew_ticket
  cause_of e h = elim (Option-cases (get id s)) [
    | inl missing ↦ rw missing (
        ground (
          arith,
          renew-won s u id (now + ttl_ms ttl) now,
          get-renew s id (now + ttl_ms ttl) now id,
        ))
    | inr (t, found) ↦ rw found (by_cause e t found h)
  ]

  declined_unchanged :
      (e : TransferError) (k : String)
      → (renew_ticket verify ttl now id s).0 ≡ err e
      → get k (renew_ticket verify ttl now id s).1 ≡ get k s
  unfolding renew_ticket
  declined_unchanged e k h = elim (Option-cases (get k s)) [
    | inl missing ↦
        ground
          (arith, renew-won s u id (now + ttl_ms ttl) now, get-renew s id (now + ttl_ms ttl) now k)
    | inr (t, found) ↦ ground (
      arith,
      renew-won s u id (now + ttl_ms ttl) now,
      get-renew s id (now + ttl_ms ttl) now k,
      get-id s k found,
      eq_iff t.id id,
    )
  ]

  -- Where ticket ids are unique, a heartbeat that is refused names its cause, in the order of the code's checks, and leaves
  -- every stored ticket as it was.
  pub renew_ticket-Declined :
      (e : TransferError)
      → (renew_ticket verify ttl now id s).0 ≡ err e
      → Declined verify now (get id s) e
        × ((k : String) → get k (renew_ticket verify ttl now id s).1 ≡ get k s)
  renew_ticket-Declined e h = (cause_of e h, λ k. declined_unchanged e k h)
