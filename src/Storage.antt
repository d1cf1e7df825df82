-- ===== src/Storage.antt =====
-- contexts/storage: transfer jobs and their promotion from the staging disk to the NAS. Types.antt
-- has the job, Jobs.antt the table of LibsqlTransferJobStore, Sync.antt NasSyncService and its
-- worker.
pub mod Types
pub mod Jobs
pub mod Sync
pub mod Push
pub mod Pull
pub mod Stream
mod Tests
