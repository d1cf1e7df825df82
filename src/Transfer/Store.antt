-- ===== src/Transfer/Store.antt =====
-- contexts/transfer/libsql-ticket-store.ts: the table `transfer_tickets`, one function for each
-- method. A statement is atomic, so a call is one step of the store.
pub mod Laws
use deltix_server.Common.{
  ℕ, Bool, ◌&&◌, ◌||◌, String, List, Option, string_eq, nat_eq, ◌==◌, ltb, leb,
}
use deltix_server.Table.{update, affected}
use deltix_server.Table.Keys.{lookup, insert}
use deltix_server.Transfer.Types.{
  TransferOperation, TicketStatus, issued, active, closed, expired, Ticket, operation_eq, status_eq,
}

abbrev pub TicketStore : Type 0
TicketStore = List Ticket

abbrev pub ticket_id : Ticket → String
ticket_id t = t.id

unfoldable pub create : Ticket → TicketStore → Option TicketStore
create t s = insert ticket_id t s

unfoldable pub get : String → TicketStore → Option Ticket
get id s = lookup ticket_id id s

abbrev pub set_status : TicketStatus → Ticket → Ticket
set_status st t = record t { status = st }

abbrev pub set_expires_at : ℕ → Ticket → Ticket
set_expires_at e t = record t { expires_at = e }

-- The conditions after `id = ?` in the WHERE clauses of `activate`, `renew` and `close`.
abbrev pub may_activate : TransferOperation → String → ℕ → Ticket → Bool
may_activate op repo now t =
    t.operation == op && t.repo == repo && t.status == issued && ltb now t.expires_at

abbrev pub may_renew : ℕ → Ticket → Bool
may_renew now t = t.status == active && ltb now t.expires_at

abbrev pub may_close : Ticket → Bool
may_close t = t.status == active

unfoldable pub activate : String → TransferOperation → String → ℕ → TicketStore → Bool × TicketStore
activate id op repo now s = (
  affected (λ t. t.id == id && may_activate op repo now t) s == 1,
  update (λ t. t.id == id && may_activate op repo now t) (set_status active) s,
)

unfoldable pub renew : String → ℕ → ℕ → TicketStore → Bool × TicketStore
renew id new_expires_at now s = (
  affected (λ t. t.id == id && may_renew now t) s == 1,
  update (λ t. t.id == id && may_renew now t) (set_expires_at new_expires_at) s,
)

unfoldable pub close : String → TicketStore → Bool × TicketStore
close id s = (
  affected (λ t. t.id == id && may_close t) s == 1,
  update (λ t. t.id == id && may_close t) (set_status closed) s,
)

abbrev pub is_overdue : ℕ → Ticket → Bool
is_overdue now t = (t.status == issued || t.status == active) && leb t.expires_at now

unfoldable pub reap_expired : ℕ → TicketStore → ℕ × TicketStore
reap_expired now s = (affected (is_overdue now) s, update (is_overdue now) (set_status expired) s)
