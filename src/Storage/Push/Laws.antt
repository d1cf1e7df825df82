-- ===== src/Storage/Push/Laws.antt =====
-- What a push session stages, and what becomes of its ticket and its file.
use deltix_server.Common.{
  ℕ, ◌+◌, ◌≡◌, ◌≢◌, ◌⊎◌, refl, true, false, String, List, [], ◌∷◌, ◌++◌, Option, none, some,
  string_eq, ok, err, arith, eq_iff, inl, inr, Option-cases, Result-cases, Bool-cases, length, All,
  ◌∙◌, subst,
}
use deltix_server.Transfer.Types.{TransferOperation}
use deltix_server.Transfer.Service.{consume_ticket}
use deltix_server.Storage.Types.{TransferJob, staged}
use deltix_server.Storage.Jobs.Laws.{get-create}
use deltix_server.Storage.Push.{
  Bytes, PushError, already_finished, finish_before_header, preparation_failed, PushSessionResult,
  PushPreparation, PushConfig, PushSession, PushState, truthy, on_header, on_chunk, on_heartbeat,
  Header, header, new_job, commit, end_sink, finish, abort,
}
use deltix_server.Storage.Jobs

-- The messages of a stream and the calls that end it.
pub data SessionCall : Type 0 where
  receives_header : ℕ → (uuid ticket_id : String) → TransferOperation → String → SessionCall
  receives_chunk : Bytes → SessionCall
  receives_heartbeat : ℕ → SessionCall
  finishes : ℕ → String → SessionCall
  aborts : SessionCall

unfoldable pub exec : PushConfig → SessionCall → PushState → PushState
exec c (receives_header now uuid id op repo) s = (on_header c now uuid id op repo s).1
exec c (receives_chunk chunk) s = (on_chunk chunk s).1
exec c (receives_heartbeat now) s = (on_heartbeat c now s).1
exec c (finishes now job_id) s = (finish c now job_id s).1
exec c aborts s = abort s

unfoldable pub exec_all : PushConfig → List SessionCall → PushState → PushState
exec_all c [] s = s
exec_all c (x ∷ xs) s = exec_all c xs (exec c x s)

-- No header names the empty ticket.
abbrev pub IsNamed : SessionCall → Type 0
IsNamed (receives_header now uuid id op repo) = id ≢ ""
IsNamed _ = Unit

abbrev pub SinkIs : Option Bytes → Option String → Bytes → Type 0
SinkIs none id hashed = hashed ≡ []
SinkIs (some written) id hashed = (written ≡ hashed) × (truthy id ≡ true)

-- The bytes counted are those hashed, which are those written.
abbrev pub IsSound : PushSession → Type 0
IsSound s = (s.bytes_received ≡ length s.hashed) × SinkIs s.sink s.ticket_id s.hashed

length-append {ℓ} : {A : Type ℓ} (xs ys : List A) → length (xs ++ ys) ≡ length xs + length ys
length-append [] ys = omega arith
length-append (x ∷ xs) ys = omega (arith, length-append xs ys)

module _ (c : PushConfig) where
  -- The session's file holds some content, and the job answered with is stored, staged, without
  -- failures and under the checksum of that content, as the answer is.
  abbrev pub Staged : PushSessionResult → PushState → Type 0
  Staged r s =
      (path : String) × (content : Bytes) × (job : TransferJob) × (s.session.staging_file_path
        ≡ some path)
      × (s.files path ≡ some content)
      × (Jobs.get r.job_id s.jobs ≡ some job)
      × (job.status ≡ staged)
      × (job.retry_count ≡ 0)
      × (job.checksum ≡ c.sha256 content)
      × (r.checksum ≡ c.sha256 content)
      × (r.bytes_received ≡ length content)

  on_header-IsSound :
      (now : ℕ) (uuid id : String) (op : TransferOperation) (repo : String) (s : PushState)
      → id ≢ ""
      → IsSound s.session
      → IsSound (on_header c now uuid id op repo s).1.session
  unfolding on_header
  on_header-IsSound now uuid id op repo s named (counts, sink) =
      elim (Bool-cases (truthy s.session.ticket_id)) [
        | inl again ↦ rw again (counts, sink)
        | inr first ↦ elim (Result-cases (consume_ticket c.verify now id op repo s.tickets).0) [
          | inr (e, refused) ↦ rw (first, refused) (counts, sink)
          | inl (t, consumed) ↦ elim (Option-cases s.session.sink) [
            | inl none_yet ↦ ground (arith, first, consumed, none_yet, counts, sink, eq_iff id "")
            | inr (b, written) ↦ absurd (ground (arith, first, written, sink))
          ]
        ]
      ]

  on_chunk-IsSound :
      (chunk : Bytes) (s : PushState) → IsSound s.session → IsSound (on_chunk chunk s).1.session
  unfolding on_chunk
  on_chunk-IsSound chunk s (counts, sink) = elim (Option-cases s.session.sink) [
    | inl none_yet ↦ ground (arith, none_yet, counts, sink)
    | inr (b, written) ↦ ground (arith, written, counts, sink, length-append s.session.hashed chunk)
  ]

  finish-cases :
      (now : ℕ) (job_id : String) (s : PushState)
      → ((e : PushError) × (finish c now job_id s ≡ (err e, s)))
        ⊎ ((h : Header) × (header s.session ≡ some h)
            × (s.session.closed ≡ false)
            × (((message : String) × (finish c now job_id s
                    ≡ (err (preparation_failed message), end_sink h s)))
                ⊎ ((prep : PushPreparation) × (finish c now job_id s
                      ≡ commit c now job_id h.ticket_id
                          (c.sha256 s.session.hashed)
                          prep
                          (end_sink h s)))))
  unfolding finish
  finish-cases now job_id s = elim (Bool-cases s.session.closed) [
    | inl over ↦ inl (already_finished, rw over refl)
    | inr going ↦ elim (Option-cases (header s.session)) [
      | inl missing ↦ inl (finish_before_header, ground (arith, going, missing))
      | inr (h, e) ↦
          elim (Result-cases (c.on_before_push h.repo h.username h.path s.session.sync_options)) [
            | inr (message, failed) ↦
                inr (h, e, going, inl (message, ground (arith, going, e, failed)))
            | inl (prep, fine) ↦ inr (h, e, going, inr (prep, ground (arith, going, e, fine)))
          ]
    ]
  ]

  commit-session :
      (now : ℕ) (job_id id checksum : String) (prep : PushPreparation) (s : PushState)
      → (commit c now job_id id checksum prep s).1.session ≡ s.session
  commit-session now job_id id checksum prep s = elim (Bool-cases prep.dry_run) [
    | inl dry ↦ rw dry refl
    | inr wet ↦
        elim (Option-cases
          (Jobs.create (new_job c job_id prep.repo prep.staging_path checksum now) s.jobs)) [
            | inl taken ↦ rw (wet, taken) refl
            | inr (jobs, e) ↦ rw (wet, e) refl
          ]
  ]

  finish-IsSound :
      (now : ℕ) (job_id : String) (s : PushState)
      → IsSound s.session
      → IsSound (finish c now job_id s).1.session
  finish-IsSound now job_id s sound = elim (finish-cases now job_id s) [
    | inl (e, same) ↦ rw same sound
    | inr (h, e, going, inl (message, failed)) ↦ rw failed sound
    | inr (h, e, going, inr (prep, fine)) ↦
        rw
          (
            fine,
            commit-session now job_id h.ticket_id (c.sha256 s.session.hashed) prep (end_sink h s),
          )
          sound
  ]

  exec-IsSound :
      (x : SessionCall) (s : PushState)
      → IsNamed x
      → IsSound s.session
      → IsSound (exec c x s).session
  unfolding exec on_heartbeat abort
  exec-IsSound (receives_header now uuid id op repo) s named h =
      on_header-IsSound now uuid id op repo s named h
  exec-IsSound (receives_chunk chunk) s named h = on_chunk-IsSound chunk s h
  exec-IsSound (receives_heartbeat now) s named h = ground (arith, h)
  exec-IsSound (finishes now job_id) s named h = finish-IsSound now job_id s h
  exec-IsSound aborts s named h = ground (arith, h)

  exec_all-IsSound :
      (xs : List SessionCall) (s : PushState)
      → All IsNamed xs
      → IsSound s.session
      → IsSound (exec_all c xs s).session
  unfolding exec_all
  exec_all-IsSound [] s named h = h
  exec_all-IsSound (x ∷ xs) s named h =
      exec_all-IsSound xs (exec c x s) named.1 (exec-IsSound x s named.0 h)

  header-content :
      (s : PushSession) (h : Header)
      → header s ≡ some h
      → (s.sink ≡ some h.content)
        × (s.staging_file_path ≡ some h.path)
        × (s.ticket_id ≡ some h.ticket_id)
  header-content s h e = ground (arith, e)

  commit-job :
      (now : ℕ) (job_id id checksum : String) (prep : PushPreparation) (s : PushState)
      (r : PushSessionResult)
      → (commit c now job_id id checksum prep s).0 ≡ ok r
      → r.dry_run ≡ false
      → let s' = (commit c now job_id id checksum prep s).1 in
        (Jobs.get r.job_id s'.jobs
          ≡ some (new_job c job_id prep.repo prep.staging_path checksum now))
        × (r.checksum ≡ checksum)
        × (r.bytes_received ≡ s.session.bytes_received)
        × (s'.files ≡ s.files)
  commit-job now job_id id checksum prep s r h wet =
      let job = new_job c job_id prep.repo prep.staging_path checksum now in
      elim (Option-cases (Jobs.create job s.jobs)) [
        | inl taken ↦ absurd (ground (arith, taken))
        | inr (jobs, e) ↦ (
          ground (arith, e, get-create s.jobs job job_id e, eq_iff job_id job_id),
          ground (arith, e),
          ground (arith, e),
          ground (arith, e),
        )
      ]

  content_of :
      (now : ℕ) (job_id : String) (t : PushState) (r : PushSessionResult) (k : Header)
      (prep : PushPreparation)
      → IsSound t.session
      → header t.session ≡ some k
      → (commit c now job_id k.ticket_id (c.sha256 t.session.hashed) prep (end_sink k t)).0 ≡ ok r
      → r.dry_run ≡ false
      → finish c now job_id t
        ≡ commit c now job_id k.ticket_id (c.sha256 t.session.hashed) prep (end_sink k t)
      → Staged r (finish c now job_id t).1
  content_of now job_id t r k prep (counts, sink) e h wet fine =
      let checksum = c.sha256 t.session.hashed in
      let (stored, sums, bytes, files) =
        commit-job now job_id k.ticket_id checksum prep (end_sink k t) r h wet in
      let (here, path, id) = header-content t.session k e in
      let same : k.content ≡ t.session.hashed = ground (arith, here, sink) in
      let kept = commit-session now job_id k.ticket_id checksum prep (end_sink k t) in
      (
        k.path,
        k.content,
        new_job c job_id prep.repo prep.staging_path checksum now,
        rw (fine, kept) path,
        rw (fine, files) (ground (arith, eq_iff k.path k.path)),
        rw fine stored,
        refl,
        refl,
        rw same refl,
        rw same sums,
        rw same (bytes ∙ counts),
      )

  -- Whatever messages a session has had, if it finishes and not as a dry run, then the file that
  -- it staged holds some content, and the job that it answers with is stored, staged and with no
  -- failures, under the checksum of exactly that content; the answer has the same checksum and
  -- the length of the content. No header may name the empty ticket, and at the start what the
  -- session has counted, hashed and written must agree, as it does in a new one.
  pub finish_stages_content :
      (xs : List SessionCall) (s : PushState) (now : ℕ) (job_id : String) (r : PushSessionResult)
      → All IsNamed xs
      → IsSound s.session
      → (finish c now job_id (exec_all c xs s)).0 ≡ ok r
      → r.dry_run ≡ false
      → Staged r (finish c now job_id (exec_all c xs s)).1
  finish_stages_content xs s now job_id r named sound h wet =
      let t = exec_all c xs s in
      let known = exec_all-IsSound xs s named sound in
      elim (finish-cases now job_id t) [
        | inl (e, refused) ↦ absurd (ground (arith, refused))
        | inr (k, e, going, inl (message, failed)) ↦ absurd (ground (arith, failed))
        | inr (k, e, going, inr (prep, fine)) ↦
            content_of now job_id t r k prep known e (subst (λ z. z.0 ≡ ok r) fine h) wet fine
      ]

  -- Where the hook rejects, the call that finishes an open session with a header is refused, the
  -- ticket stays as it was, and the staged file stays too: the session counts as closed, so that
  -- neither aborting nor finishing again does anything.
  pub failed_preparation_keeps_file :
      (now : ℕ) (job_id message : String) (s : PushState) (h : Header)
      → s.session.closed ≡ false
      → header s.session ≡ some h
      → c.on_before_push h.repo h.username h.path s.session.sync_options ≡ err message
      → let (r, s') = finish c now job_id s in
        (r ≡ err (preparation_failed message))
        × (s'.tickets ≡ s.tickets)
        × (abort s' ≡ s')
        × (s'.files h.path ≡ some h.content)
        × ((later : ℕ) (id : String) → finish c later id s' ≡ (err already_finished, s'))
  unfolding finish abort
  failed_preparation_keeps_file now job_id message s h going e failed = (
    ground (arith, going, e, failed),
    ground (arith, going, e, failed),
    ground (arith, going, e, failed),
    ground (arith, going, e, failed, eq_iff h.path h.path),
    λ later id. ground (arith, going, e, failed),
  )
