-- ===== src/Transfer/Types.antt =====
-- contexts/transfer/types.ts and errors.ts. Times are epoch milliseconds.
use deltix_server.Common.{ℕ, ◌≡◌, ◌↔◌, Bool, true, false, String, List, Option, Eq, arith}

pub data TransferOperation : Type 0 where
  push pull : TransferOperation

pub data SyncMode : Type 0 where
  schema_only schema_and_data : SyncMode

pub data TicketStatus : Type 0 where
  issued active closed expired : TicketStatus

-- An absent property is `none`; `tables` may also be present and null.
pub record PushTicketSyncOptions : Type 0 where
  pub mode : Option SyncMode
  pub tables : Option (Option (List String))
  pub dry_run : Option Bool

pub record Ticket : Type 0 where
  pub id : String
  pub username : String
  pub operation : TransferOperation
  pub repo : String
  pub status : TicketStatus
  pub issued_at : ℕ
  pub expires_at : ℕ
  pub sync_options : Option PushTicketSyncOptions

-- The classes of errors.ts; `constraint_violation` is the store's refusal of a key that is taken.
pub data TransferError : Type 0 where
  ticket_not_found ticket_expired ticket_already_consumed : TransferError
  ticket_operation_mismatch ticket_role_revoked constraint_violation : TransferError

abbrev pub operation_beq : TransferOperation → TransferOperation → Bool
operation_beq push push = true
operation_beq pull pull = true
operation_beq _ _ = false

pub operation_beq_iff : (a b : TransferOperation) → (operation_beq a b ≡ true) ↔ (a ≡ b)
operation_beq_iff a b = ground arith

instance abbrev pub operation_eq : Eq TransferOperation
operation_eq = record { beq = operation_beq; beq_iff = operation_beq_iff }

abbrev pub status_beq : TicketStatus → TicketStatus → Bool
status_beq issued issued = true
status_beq active active = true
status_beq closed closed = true
status_beq expired expired = true
status_beq _ _ = false

pub status_beq_iff : (a b : TicketStatus) → (status_beq a b ≡ true) ↔ (a ≡ b)
status_beq_iff a b = ground arith

instance abbrev pub status_eq : Eq TicketStatus
status_eq = record { beq = status_beq; beq_iff = status_beq_iff }
