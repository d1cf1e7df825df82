-- ===== src/Transfer/Service.antt =====
-- contexts/transfer/ticket.service.ts. Each reading of the clock is an argument, the random id is
-- an argument, and `verify` is the optional RepoRoleVerifier, a live read of the role store.
pub mod Consume
pub mod Renew
pub mod Issue
use deltix_server.Common.{
  ℕ, ◌+◌, ◌*◌, Bool, true, false, not, ◌&&◌, String, Option, none, some, string_eq, ◌==◌, ltb, leb,
  if◌then◌else◌, Result, ok, err,
}
use deltix_server.Auth.Roles.{RepoRole, reader, writer, role_rank}
use deltix_server.Transfer.Types.{
  TransferOperation, push, pull, operation_eq, active, status_eq, PushTicketSyncOptions, Ticket,
  issued, TransferError, ticket_not_found, ticket_expired, ticket_already_consumed,
  ticket_operation_mismatch, ticket_role_revoked, constraint_violation,
}
use deltix_server.Transfer.Store.{TicketStore, create, get, activate, renew, close}

abbrev pub Reply : Type 0 → Type 0
Reply A = Result TransferError A

abbrev pub RepoRoleVerifier : Type 0
RepoRoleVerifier = String → String → Option RepoRole

-- `MINIMUM_ROLE_FOR_OPERATION`.
unfoldable pub minimum_role : TransferOperation → RepoRole
minimum_role push = writer
minimum_role pull = reader

abbrev pub ttl_ms : ℕ → ℕ
ttl_ms ttl_seconds = ttl_seconds * 1000

abbrev pub options_for :
    TransferOperation → Option PushTicketSyncOptions → Option PushTicketSyncOptions
options_for push options = options
options_for pull options = none

-- The ticket that `issueTicket` builds; the clock is read twice.
abbrev pub new_ticket :
    (ttl_seconds issued_at later : ℕ) (id username : String)
    → TransferOperation
    → String
    → Option PushTicketSyncOptions
    → Ticket
new_ticket ttl_seconds issued_at later id username op repo options = record {
  id = id;
  username = username;
  operation = op;
  repo = repo;
  status = issued;
  issued_at = issued_at;
  expires_at = later + ttl_ms ttl_seconds;
  sync_options = options_for op options;
}

unfoldable pub issue_ticket :
    (ttl_seconds issued_at later : ℕ) (id username : String)
    → TransferOperation
    → String
    → Option PushTicketSyncOptions
    → TicketStore
    → Reply Ticket × TicketStore
issue_ticket ttl_seconds issued_at later id username op repo options s =
    let ticket = new_ticket ttl_seconds issued_at later id username op repo options in
    elim (create ticket s) [ none ↦ (err constraint_violation, s) | some s' ↦ (ok ticket, s') ]

unfoldable pub role_sufficient : TransferOperation → Option RepoRole → Bool
role_sufficient op none = false
role_sufficient op (some role) = not (ltb (role_rank role) (role_rank (minimum_role op)))

unfoldable pub assert_role_still_sufficient :
    Option RepoRoleVerifier → String → TransferOperation → String → Reply (Unit {0})
assert_role_still_sufficient none username op repo = ok tt
assert_role_still_sufficient (some verify) username op repo =
    if role_sufficient op (verify username repo) then ok tt else err ticket_role_revoked

-- `consumeTicket` up to the call of `activate`.
unfoldable pub consume_check :
    Option RepoRoleVerifier → String → TransferOperation → String → TicketStore → Reply (Unit {0})
consume_check verify id op repo s = elim (get id s) [
  | none ↦ ok tt
  | some t ↦
      if t.operation == op && t.repo == repo
      then assert_role_still_sufficient verify t.username op repo
      else ok tt
]

-- `consumeTicket` after the call of `activate`.
unfoldable pub consume_outcome :
    Bool → ℕ → String → TransferOperation → String → TicketStore → Reply Ticket
consume_outcome true now id op repo s = elim (get id s) [
  | none ↦ err ticket_not_found
  | some t ↦ ok t
]
consume_outcome false now id op repo s = elim (get id s) [
  | none ↦ err ticket_not_found
  | some t ↦
      if leb t.expires_at now
      then err ticket_expired
      else if not (t.operation == op && t.repo == repo)
      then err ticket_operation_mismatch
      else err ticket_already_consumed
]

unfoldable pub consume_ticket :
    Option RepoRoleVerifier
    → ℕ
    → String
    → TransferOperation
    → String
    → TicketStore
    → Reply Ticket × TicketStore
consume_ticket verify now id op repo s = elim (consume_check verify id op repo s) [
  | err e ↦ (err e, s)
  | ok _ ↦
      let (activated, s') = activate id op repo now s in
      (consume_outcome activated now id op repo s', s')
]

abbrev pub recheck : Option RepoRoleVerifier → Option Ticket → Reply (Unit {0})
recheck verify none = ok tt
recheck verify (some t) = assert_role_still_sufficient verify t.username t.operation t.repo

-- `renewTicket` after a renewal that lost.
abbrev pub renew_failure : Option Ticket → TransferError
renew_failure none = ticket_not_found
renew_failure (some t) = if t.status == active then ticket_expired else ticket_not_found

unfoldable pub renew_ticket :
    Option RepoRoleVerifier → (ttl_seconds now : ℕ) → String → TicketStore → Reply ℕ × TicketStore
renew_ticket verify ttl_seconds now id s = elim (recheck verify (get id s)) [
  | err e ↦ (err e, s)
  | ok _ ↦
      let (renewed, s') = renew id (now + ttl_ms ttl_seconds) now s in
      (if renewed then ok (now + ttl_ms ttl_seconds) else err (renew_failure (get id s')), s')
]

unfoldable pub close_ticket : String → TicketStore → Reply (Unit {0}) × TicketStore
close_ticket id s =
    let (closed, s') = close id s in (if closed then ok tt else err ticket_not_found, s')
