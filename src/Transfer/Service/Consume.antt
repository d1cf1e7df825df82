-- ===== src/Transfer/Service/Consume.antt =====
-- When `TicketService.consumeTicket` succeeds, what it refuses and why, and what it changes.
use deltix_server.Common.{
  sym, ap, ◌∙◌, ◌≢◌, inr, Result, Option-cases, false, ℕ, ◌≡◌, refl, ◌↔◌, ◌⊎◌, inl, ◌≤◌, ◌<◌,
  String, Option, none, some, string_eq, arith, ok, err, eq_iff,
}
use deltix_server.Auth.Roles.{RepoRole, role_rank}
use deltix_server.Table.Keys.{Unique}
use deltix_server.Transfer.Types.{
  TransferOperation, Ticket, issued, active, status_beq_iff, operation_beq_iff, TransferError,
  ticket_not_found, ticket_expired, ticket_already_consumed, ticket_operation_mismatch,
  ticket_role_revoked,
}
use deltix_server.Transfer.Store.{TicketStore, ticket_id, get, set_status, activate}
use deltix_server.Transfer.Store.Laws.{get-id, get-activate, activate-won}
use deltix_server.Transfer.Service.{
  RepoRoleVerifier, minimum_role, role_sufficient, assert_role_still_sufficient, consume_check,
  consume_outcome, consume_ticket,
}

-- No verifier is configured, or the live role has at least the rank that the operation wants.
abbrev pub Allowed : Option RepoRoleVerifier → String → TransferOperation → String → Type 0
Allowed none username op repo = Unit
Allowed (some verify) username op repo =
    (role : RepoRole) × (verify username repo ≡ some role)
    × (role_rank (minimum_role op) ≤ role_rank role)

pub assert_role_iff :
    (verify : Option RepoRoleVerifier) (username : String) (op : TransferOperation) (repo : String)
    → (assert_role_still_sufficient verify username op repo ≡ ok tt)
      ↔ Allowed verify username op repo
unfolding assert_role_still_sufficient role_sufficient
assert_role_iff none username op repo = ground arith
assert_role_iff (some verify) username op repo = ground arith

pub assert_role_error :
    (verify : Option RepoRoleVerifier) (username : String) (op : TransferOperation) (repo : String)
    → (assert_role_still_sufficient verify username op repo ≡ ok tt)
      ⊎ (assert_role_still_sufficient verify username op repo ≡ err ticket_role_revoked)
unfolding assert_role_still_sufficient
assert_role_error none username op repo = inl refl
assert_role_error (some verify) username op repo = ground arith

-- The conditions under which a ticket is consumed.
pub record Consumable (verify : Option RepoRoleVerifier) (now : ℕ) (op : TransferOperation)
    (repo : String) (t : Ticket) : Type 0 where
  pub for_operation : t.operation ≡ op
  pub for_repo : t.repo ≡ repo
  pub unused : t.status ≡ issued
  pub in_time : now < t.expires_at
  pub allowed : Allowed verify t.username op repo

-- Why a request on a stored row is refused, in the order of the code's checks.
abbrev pub Refused :
    Option RepoRoleVerifier
    → ℕ
    → TransferOperation
    → String
    → Option Ticket
    → TransferError
    → Type 0
Refused verify now op repo none e = e ≡ ticket_not_found
Refused verify now op repo (some t) ticket_role_revoked =
    (t.operation ≡ op) × (t.repo ≡ repo) × ¬ Allowed verify t.username op repo
Refused verify now op repo (some t) ticket_expired =
    (t.expires_at ≤ now)
    × ((t.operation ≡ op) × (t.repo ≡ repo) → Allowed verify t.username op repo)
Refused verify now op repo (some t) ticket_operation_mismatch =
    (now < t.expires_at) × ((t.operation ≢ op) ⊎ (t.repo ≢ repo))
Refused verify now op repo (some t) ticket_already_consumed =
    (t.operation ≡ op)
    × (t.repo ≡ repo)
    × Allowed verify t.username op repo
    × (now < t.expires_at)
    × (t.status ≢ issued)
Refused verify now op repo (some t) _ = ⊥

module _ (verify : Option RepoRoleVerifier) (now : ℕ) (id : String) (op : TransferOperation)
    (repo : String) (s : TicketStore) (u : Unique ticket_id s) where
  abbrev reply : Result TransferError Ticket × TicketStore
  reply = consume_ticket verify now id op repo s

  consume_ticket_complete :
      (t : Ticket)
      → get id s ≡ some t
      → Consumable verify now op repo t
      → (consume_ticket verify now id op repo s).0 ≡ ok (set_status active t)
  unfolding consume_ticket consume_check consume_outcome
  consume_ticket_complete t found c = ground (
    arith,
    assert_role_iff verify t.username op repo,
    activate-won s u id op repo now,
    get-activate s id op repo now id,
    get-id s id found,
    eq_iff t.id id,
    eq_iff t.repo repo,
    operation_beq_iff t.operation op,
    status_beq_iff t.status issued,
  )

  consume_ticket_sound :
      (t' : Ticket)
      → (consume_ticket verify now id op repo s).0 ≡ ok t'
      → (t : Ticket) × (get id s ≡ some t)
        × (t' ≡ set_status active t)
        × Consumable verify now op repo t
  unfolding consume_ticket consume_check consume_outcome
  consume_ticket_sound t' h = elim (Option-cases (get id s)) [
    | inl missing ↦
        absurd (ground (arith, activate-won s u id op repo now, get-activate s id op repo now id))
    | inr (t, found) ↦ (
      t,
      found,
      ground (
        arith,
        assert_role_iff verify t.username op repo,
        activate-won s u id op repo now,
        get-activate s id op repo now id,
        get-id s id found,
        eq_iff t.id id,
        eq_iff t.repo repo,
        operation_beq_iff t.operation op,
        status_beq_iff t.status issued,
      ),
      ground (
        arith,
        assert_role_iff verify t.username op repo,
        activate-won s u id op repo now,
        get-activate s id op repo now id,
        get-id s id found,
        eq_iff t.id id,
        eq_iff t.repo repo,
        operation_beq_iff t.operation op,
        status_beq_iff t.status issued,
      ),
    )
  ]

  -- Where ticket ids are unique, consuming succeeds exactly when the ticket is stored, unused, in time and for the very
  -- operation and repo, and the owner's live role still suffices; the reply is the active ticket.
  pub consume_ticket-ok_iff :
      (t' : Ticket)
      → ((consume_ticket verify now id op repo s).0 ≡ ok t') ↔ (
          (t : Ticket) × (get id s ≡ some t)
          × (t' ≡ set_status active t)
          × Consumable verify now op repo t)
  consume_ticket-ok_iff t' =
      (consume_ticket_sound t', λ c. consume_ticket_complete c.0 c.1 c.3 ∙ ap ok (sym c.2))

  by_cause :
      (e : TransferError) (t : Ticket)
      → get id s ≡ some t
      → (consume_ticket verify now id op repo s).0 ≡ err e
      → Refused verify now op repo (some t) e
  unfolding consume_ticket consume_check consume_outcome
  by_cause ticket_not_found t found h = ground (
    arith,
    assert_role_iff verify t.username op repo,
    assert_role_error verify t.username op repo,
    activate-won s u id op repo now,
    get-activate s id op repo now id,
    get-id s id found,
    eq_iff t.id id,
    eq_iff t.repo repo,
    operation_beq_iff t.operation op,
    status_beq_iff t.status issued,
  )
  by_cause _ t found h = ground (
    arith,
    assert_role_iff verify t.username op repo,
    assert_role_error verify t.username op repo,
    activate-won s u id op repo now,
    get-activate s id op repo now id,
    get-id s id found,
    eq_iff t.id id,
    eq_iff t.repo repo,
    operation_beq_iff t.operation op,
    status_beq_iff t.status issued,
  )

  cause_of :
      (e : TransferError)
      → (consume_ticket verify now id op repo s).0 ≡ err e
      → Refused verify now op repo (get id s) e
  unfolding consume_ticket consume_check consume_outcome
  cause_of e h = elim (Option-cases (get id s)) [
    | inl missing ↦
        rw missing
          (ground (arith, activate-won s u id op repo now, get-activate s id op repo now id))
    | inr (t, found) ↦ rw found (by_cause e t found h)
  ]

  -- A second use, in time and still allowed, is told that the ticket is spent.
  pub consume_ticket-spent :
      (t : Ticket)
      → get id s ≡ some t
      → t.operation ≡ op
      → t.repo ≡ repo
      → Allowed verify t.username op repo
      → now < t.expires_at
      → t.status ≢ issued
      → (consume_ticket verify now id op repo s).0 ≡ err ticket_already_consumed
  unfolding consume_ticket consume_check consume_outcome
  consume_ticket-spent t found same_op same_repo may early used = ground (
    arith,
    assert_role_iff verify t.username op repo,
    activate-won s u id op repo now,
    get-activate s id op repo now id,
    get-id s id found,
    eq_iff t.id id,
    eq_iff t.repo repo,
    operation_beq_iff t.operation op,
    status_beq_iff t.status issued,
  )

  lost-get :
      (k : String)
      → (activate id op repo now s).0 ≡ false
      → get k (activate id op repo now s).1 ≡ get k s
  lost-get k lost = elim (Option-cases (get k s)) [
    | inl missing ↦ rw (get-activate s id op repo now k, missing)
    | inr (t, found) ↦ ground (
      arith,
      get-activate s id op repo now k,
      activate-won s u id op repo now,
      get-id s k found,
      eq_iff t.id id,
    )
  ]

  unchanged :
      (e : TransferError) (k : String)
      → (consume_ticket verify now id op repo s).0 ≡ err e
      → get k (consume_ticket verify now id op repo s).1 ≡ get k s
  unfolding consume_ticket consume_outcome
  unchanged e k h = elim (Option-cases (get id s)) [
    | inl missing ↦ ground (arith, lost-get k, activate-won s u id op repo now)
    | inr (t, found) ↦ ground (arith, lost-get k, get-activate s id op repo now id)
  ]

  -- Where ticket ids are unique, a refusal names its cause, in the order of the code's checks, and
  -- leaves every stored ticket as it was.
  pub consume_ticket-Refused :
      (e : TransferError)
      → (consume_ticket verify now id op repo s).0 ≡ err e
      → Refused verify now op repo (get id s) e
        × ((k : String) → get k (consume_ticket verify now id op repo s).1 ≡ get k s)
  consume_ticket-Refused e h = (cause_of e h, λ k. unchanged e k h)
