-- ===== src/Storage/Tests.antt =====
-- Runs of the sync queue on concrete jobs.
use deltix_server.Common.{
  true, if◌then◌else◌, ◌⊎◌, ◌==◌, ℕ, ◌+◌, ◌≤◌, ◌<◌, ◌≡◌, refl, String, List, [], ◌∷◌, none, some,
  string_eq, ok, err, arith,
}
use deltix_server.Storage.Jobs.{
  candidates, claim, claim_attempts, claim_first, create, mark_failed, mark_synced,
  requeue_dead_letter, JobStore, job_id, get, claim_next_eligible,
}
use deltix_server.Table.Order.{order_by}
use deltix_server.Table.{affected, update, find}
use deltix_server.Storage.Sync.{
  copy_error, settle, NasAdapter, BackoffOptions, Clock, process_next, drain,
}
use deltix_server.Storage.Jobs.Race.{
  exec, JobCall, creates, claims, syncs, fails, requeues, exec_all, takes, gives_back, tally,
  holders, claims_balance,
}
use deltix_server.Table.Keys.{insert, Unique}
use deltix_server.Transfer.Types.{pull, Ticket, closed, TransferError}
use deltix_server.Transfer.Store.{TicketStore, ticket_id, set_status}
use deltix_server.Transfer.Service.{new_ticket}
use deltix_server.Transfer.Service.Consume.{Consumable}
use deltix_server.Storage.Pull.{NasFiles, pull_ticket_rejected, stream, stream_spends_or_refuses}
use deltix_server.Storage.Types.{TransferJob, TransferJobStatus, staged, synced}
use deltix_server.Storage.Sync.Laws.{Processes, process_next-Processes, synced_is_verified}
use deltix_server.Storage.Sync.Drain.{Drained, drain_total, total_work}
use deltix_server.Transfer.Store

abbrev job : String → TransferJobStatus → ℕ → TransferJob
job id st created = record {
  id = id;
  repo = "r";
  staging_path = "/ssd/r/x.staging";
  checksum = "c0ffee";
  status = st;
  retry_count = 0;
  max_retries = 1;
  next_retry_at = 0;
  created_at = created;
  updated_at = created;
  last_error = none;
}

abbrev jobs : JobStore
jobs = job "j1" staged 20 ∷ job "j2" staged 10 ∷ []

jobs-Unique : Unique job_id jobs
unfolding find
jobs-Unique = (refl, (refl, tt))

-- A NAS that copies well, and one that does not answer.
abbrev sound_nas : NasAdapter
sound_nas path repo = ok "c0ffee"

abbrev dead_nas : NasAdapter
dead_nas path repo = err "EHOSTUNREACH"

abbrev options : BackoffOptions
options = record { backoff_base_ms = none; backoff_max_ms = none }

abbrev clock : Clock
clock = record { claimed_at = 100; failed_at = 110; stamp = 120 }

process_next-Processes_example :
    Processes options dead_nas clock jobs (process_next options dead_nas clock jobs)
process_next-Processes_example = process_next-Processes options dead_nas clock jobs jobs-Unique

abbrev whole : TransferJob
whole = record (job "j2" staged 10) { status = synced; updated_at = 120 }

there : get "j2" jobs ≡ some (job "j2" staged 10)
unfolding get find
there = refl

done : get "j2" (process_next options sound_nas clock jobs).1 ≡ some whole
unfolding get find process_next claim_next_eligible claim_attempts candidates order_by claim_first
    claim affected update settle copy_error mark_synced
done = refl

synced_is_verified_example : sound_nas "/ssd/r/x.staging" "r" ≡ ok "c0ffee"
synced_is_verified_example =
    synced_is_verified options sound_nas clock jobs "j2" (job "j2" staged 10) whole jobs-Unique
      there (λ e. cc) done refl

few : total_work jobs < 9
unfolding total_work
few = omega arith

drain_total_example :
    Drained options
      (λ i. dead_nas)
      (λ i. clock)
      0
      jobs
      (drain options (λ i. dead_nas) (λ i. clock) 9 0 jobs)
drain_total_example = drain_total options (λ i. dead_nas) (λ i. clock) 9 0 jobs jobs-Unique few

abbrev history : List JobCall
history =
    creates (job "j3" staged 30) refl
    ∷ claims "j3" 100
    ∷ claims "j3" 101
    ∷ fails "j3" "EIO" 1200 110
    ∷ syncs "j3" 130
    ∷ requeues "j3" 140
    ∷ claims "j3" 150
    ∷ []

claims_balance_example :
    (tally takes "j3" history jobs + holders (get "j3" jobs)
      ≡ tally gives_back "j3" history jobs + holders (get "j3" (exec_all history jobs)))
    × (tally takes "j3" history jobs ≤ tally gives_back "j3" history jobs + 1)
claims_balance_example = claims_balance "j3" history jobs jobs-Unique

two_claims : tally takes "j3" history jobs ≡ 2
unfolding tally takes claim affected exec create insert find update requeue_dead_letter mark_synced
    mark_failed
two_claims = refl

abbrev tickets : TicketStore
tickets = new_ticket 60 500 500 "t2" "bob" pull "r" none ∷ []

tickets-Unique : Unique ticket_id tickets
unfolding find
tickets-Unique = (refl, tt)

abbrev nas : NasFiles
nas path = if path == "r/repo.dolt" then some ((1 ∷ 2 ∷ []) ∷ [], true) else none

stream_spends_or_refuses_example :
    let (reply, s) = stream none nas (λ repo. "r/repo.dolt") 600 "t2" "r" tickets in
    ((t : Ticket) × (Store.get "t2" tickets ≡ some t)
      × Consumable none 600 pull "r" t
      × (reply ≡ (((1 ∷ 2 ∷ []) ∷ []), ok tt))
      × (Store.get "t2" s ≡ some (set_status closed t)))
    ⊎ ((e : TransferError) × (reply ≡ ([], err (pull_ticket_rejected e)))
        × ((k : String) → Store.get k s ≡ Store.get k tickets))
stream_spends_or_refuses_example =
    stream_spends_or_refuses none nas (λ repo. "r/repo.dolt") 600 "t2" "r" tickets tickets-Unique
