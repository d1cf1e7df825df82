-- ===== src/Transfer.antt =====
-- contexts/transfer: ephemeral tickets. Types.antt has the types and errors, Store.antt the table
-- of LibsqlTicketStore, Service.antt the methods of TicketService.
pub mod Types
pub mod Store
pub mod Service
pub mod Race
pub mod Router
mod Tests
