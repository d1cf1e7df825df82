-- ===== src/Storage/Types.antt =====
-- contexts/storage/types.ts.
use deltix_server.Common.{ℕ, ◌≡◌, ◌↔◌, Bool, true, false, String, Option, Eq, arith}

pub data TransferJobStatus : Type 0 where
  staged syncing synced sync_failed dead_letter : TransferJobStatus

pub record TransferJob : Type 0 where
  pub id : String
  pub repo : String
  pub staging_path : String
  pub checksum : String
  pub status : TransferJobStatus
  pub retry_count : ℕ
  pub max_retries : ℕ
  pub next_retry_at : ℕ
  pub created_at : ℕ
  pub updated_at : ℕ
  pub last_error : Option String

abbrev pub job_status_beq : TransferJobStatus → TransferJobStatus → Bool
job_status_beq staged staged = true
job_status_beq syncing syncing = true
job_status_beq synced synced = true
job_status_beq sync_failed sync_failed = true
job_status_beq dead_letter dead_letter = true
job_status_beq _ _ = false

pub job_status_beq_iff : (a b : TransferJobStatus) → (job_status_beq a b ≡ true) ↔ (a ≡ b)
job_status_beq_iff a b = ground arith

instance abbrev pub job_status_eq : Eq TransferJobStatus
job_status_eq = record { beq = job_status_beq; beq_iff = job_status_beq_iff }
