-- ===== src/Storage/Push/Ticket.antt =====
-- Which tickets open a push session.
use deltix_server.Common.{
  ℕ, ◌≡◌, ◌≢◌, refl, false, String, [], some, string_eq, ok, arith, ap, eq_iff, inl, inr,
  Result-cases,
}
use deltix_server.Table.Keys.{Unique}
use deltix_server.Transfer.Types.{TransferOperation, Ticket, active}
use deltix_server.Transfer.Store.{ticket_id, get, set_status}
use deltix_server.Transfer.Service.{consume_ticket}
use deltix_server.Transfer.Service.Consume.{Consumable, consume_ticket-ok_iff}
use deltix_server.Storage.Jobs.{JobStore, create}
use deltix_server.Storage.Push.{
  PushSessionResult, PushConfig, PushState, fresh_session, no_preparation, on_header, finish,
  new_job,
}

module _ (c : PushConfig) (now : ℕ) (uuid id : String) (op : TransferOperation) (repo : String)
    (s : PushState) where
  -- Where ticket ids are unique, a header that a new session accepts names a stored ticket that
  -- could be consumed for the operation and the repo that the header names; the session then
  -- belongs to the ticket's user and that repo.
  pub on_header-Consumable :
      Unique ticket_id s.tickets
      → s.session ≡ fresh_session
      → (on_header c now uuid id op repo s).0 ≡ ok tt
      → let s' = (on_header c now uuid id op repo s).1 in
        (t : Ticket) × (get id s.tickets ≡ some t)
        × Consumable c.verify now op repo t
        × (s'.session.username ≡ some t.username)
        × (s'.session.repo ≡ some repo)
        × (s'.session.sync_options ≡ t.sync_options)
  unfolding on_header
  on_header-Consumable u new h =
      elim (Result-cases (consume_ticket c.verify now id op repo s.tickets).0) [
        | inr (e, refused) ↦ absurd (ground (arith, refused))
        | inl (t', consumed) ↦
            let (t, found, same, fit) =
              (consume_ticket-ok_iff c.verify now id op repo s.tickets u t').0 consumed in
            (
              t,
              found,
              fit,
              ground (arith, new, consumed, same),
              ground (arith, new, consumed),
              ground (arith, new, consumed, same),
            )
      ]

  -- The operation that the header names is not compared with push: where ticket ids are unique, a
  -- ticket that can be consumed for whatever operation the header names, also for a pull, opens a
  -- new session of push, which can then stage a job at once. The hook is the default one, no name
  -- is empty, and the id of the new job is not taken.
  pub any_operation_pushes :
      (later : ℕ) (job_id : String) (t : Ticket) {jobs : JobStore}
      → Unique ticket_id s.tickets
      → s.session ≡ fresh_session
      → get id s.tickets ≡ some t
      → Consumable c.verify now op repo t
      → id ≢ ""
      → repo ≢ ""
      → t.username ≢ ""
      → c.staging_path repo uuid ≢ ""
      → c.on_before_push ≡ no_preparation
      → create (new_job c job_id repo (c.staging_path repo uuid) (c.sha256 []) later) s.jobs
        ≡ some jobs
      → let opened = on_header c now uuid id op repo s in
        (opened.0 ≡ ok tt)
        × (r : PushSessionResult) × ((finish c later job_id opened.1).0 ≡ ok r)
        × (r.job_id ≡ job_id)
        × (r.dry_run ≡ false)
  unfolding on_header finish
  any_operation_pushes later job_id t u new found fit a b d e plain free =
      let consumed =
        (consume_ticket-ok_iff c.verify now id op repo s.tickets u (set_status active t)).1
          (t, found, refl, fit) in
      (
        ground (arith, new, consumed),
        record { job_id = job_id; checksum = c.sha256 []; bytes_received = 0; dry_run = false },
        ground (
          arith,
          new,
          consumed,
          free,
          ap (λ f. f repo t.username (c.staging_path repo uuid) t.sync_options) plain,
          eq_iff id "",
          eq_iff repo "",
          eq_iff t.username "",
          eq_iff (c.staging_path repo uuid) "",
        ),
        refl,
        refl,
      )
