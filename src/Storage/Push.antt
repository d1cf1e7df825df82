-- ===== src/Storage/Push.antt =====
-- contexts/storage/push-session-handler.ts: the handler of one push stream. Paths, the hash and the
-- hook `onBeforePush` are parameters; the directory is taken to be creatable. What is written to
-- the file sink reaches the file when the sink is ended. `onPushCommitted`, whose errors the code
-- drops, changes nothing here.
pub mod Laws
pub mod Ticket
mod Tests
use deltix_server.Common.{
  ℕ, ◌+◌, Bool, true, false, not, ◌&&◌, String, List, [], ◌∷◌, ◌++◌, Option, none, some, string_eq,
  ◌==◌, if◌then◌else◌, Result, ok, err, length,
}
use deltix_server.Transfer.Types.{TransferOperation, PushTicketSyncOptions, TransferError}
use deltix_server.Transfer.Store.{TicketStore}
use deltix_server.Transfer.Service.{RepoRoleVerifier, consume_ticket, renew_ticket, close_ticket}
use deltix_server.Storage.Types.{TransferJob, staged}
use deltix_server.Storage.Jobs.{JobStore}
use deltix_server.Storage.Jobs

abbrev pub Bytes : Type 0
Bytes = List ℕ

pub data PushError : Type 0 where
  header_already_received chunk_before_header heartbeat_before_header : PushError
  already_finished finish_before_header job_rejected : PushError
  ticket_rejected renewal_rejected : TransferError → PushError
  preparation_failed : String → PushError

pub record PushSessionResult : Type 0 where
  pub job_id : String
  pub checksum : String
  pub bytes_received : ℕ
  pub dry_run : Bool

-- `PushPreparationResult`, without the tables that only `onPushCommitted` sees.
pub record PushPreparation : Type 0 where
  pub repo : String
  pub username : String
  pub staging_path : String
  pub dry_run : Bool

abbrev pub OnBeforePush : Type 0
OnBeforePush =
    (repo username staging_path : String)
    → Option PushTicketSyncOptions
    → Result String PushPreparation

-- The hook that the handler has by default.
abbrev pub no_preparation : OnBeforePush
no_preparation repo username staging_path options =
    ok (record { repo = repo; username = username; staging_path = staging_path; dry_run = false })

pub record PushConfig : Type 0 where
  pub verify : Option RepoRoleVerifier
  pub ttl_seconds : ℕ
  pub max_retries : ℕ
  pub sha256 : Bytes → String
  pub staging_path : (repo uuid : String) → String
  pub on_before_push : OnBeforePush

-- The fields of the handler; `sink` holds what was written to it.
pub record PushSession : Type 0 where
  pub hashed : Bytes
  pub bytes_received : ℕ
  pub ticket_id : Option String
  pub username : Option String
  pub repo : Option String
  pub sync_options : Option PushTicketSyncOptions
  pub staging_file_path : Option String
  pub sink : Option Bytes
  pub closed : Bool

abbrev pub fresh_session : PushSession
fresh_session = record {
  hashed = [];
  bytes_received = 0;
  ticket_id = none;
  username = none;
  repo = none;
  sync_options = none;
  staging_file_path = none;
  sink = none;
  closed = false;
}

pub record PushState : Type 0 where
  pub session : PushSession
  pub tickets : TicketStore
  pub jobs : JobStore
  pub files : String → Option Bytes

abbrev pub Reply : Type 0 → Type 0
Reply A = Result PushError A × PushState

-- A string is falsy where it is undefined or empty.
abbrev pub truthy : Option String → Bool
truthy none = false
truthy (some s) = not (s == "")

abbrev pub put_file : String → Option Bytes → (String → Option Bytes) → String → Option Bytes
put_file path content files p = if p == path then content else files p

unfoldable pub on_header :
    PushConfig
    → ℕ
    → (uuid ticket_id : String) → TransferOperation
    → String
    → PushState
    → Reply (Unit {0})
on_header c now uuid ticket_id op repo s =
    if truthy s.session.ticket_id
    then (err header_already_received, s)
    else let (r, tickets) = consume_ticket c.verify now ticket_id op repo s.tickets in
      elim r [
        | err e ↦ (err (ticket_rejected e), record s { tickets = tickets })
        | ok t ↦ (
          ok tt,
          record s {
            tickets = tickets;
            session = record s.session {
              ticket_id = some ticket_id;
              username = some t.username;
              repo = some repo;
              sync_options = t.sync_options;
              staging_file_path = some (c.staging_path repo uuid);
              sink = some [];
            };
          },
        )
      ]

unfoldable pub on_chunk : Bytes → PushState → Reply (Unit {0})
on_chunk chunk s = elim s.session.sink [
  | none ↦ (err chunk_before_header, s)
  | some written ↦ (
    ok tt,
    record s {
      session = record s.session {
        sink = some (written ++ chunk);
        hashed = s.session.hashed ++ chunk;
        bytes_received = s.session.bytes_received + length chunk;
      };
    },
  )
]

abbrev pub renewed : Result TransferError ℕ → Result PushError (Unit {0})
renewed (ok _) = ok tt
renewed (err e) = err (renewal_rejected e)

unfoldable pub on_heartbeat : PushConfig → ℕ → PushState → Reply (Unit {0})
on_heartbeat c now s = elim s.session.ticket_id [
  | none ↦ (err heartbeat_before_header, s)
  | some id ↦
      if not (truthy (some id))
      then (err heartbeat_before_header, s)
      else let (r, tickets) = renew_ticket c.verify c.ttl_seconds now id s.tickets in
        (renewed r, record s { tickets = tickets })
]

-- What `finish` needs of a header: ticket, repo, path, sink and user, none of them falsy.
pub record Header : Type 0 where
  pub ticket_id : String
  pub repo : String
  pub path : String
  pub content : Bytes
  pub username : String

abbrev pub header_of :
    (ticket_id repo path : Option String) → Option Bytes → Option String → Option Header
header_of (some t) (some r) (some p) (some b) (some u) =
    if truthy (some t) && truthy (some r) && truthy (some p) && truthy (some u)
    then some (record { ticket_id = t; repo = r; path = p; content = b; username = u })
    else none
header_of _ _ _ _ _ = none

abbrev pub header : PushSession → Option Header
header s = header_of s.ticket_id s.repo s.staging_file_path s.sink s.username

abbrev pub new_job : PushConfig → (id repo path checksum : String) → ℕ → TransferJob
new_job c id repo path checksum now = record {
  id = id;
  repo = repo;
  staging_path = path;
  checksum = checksum;
  status = staged;
  retry_count = 0;
  max_retries = c.max_retries;
  next_retry_at = 0;
  created_at = now;
  updated_at = now;
  last_error = none;
}

-- `finish` once the hook has answered: `s` is the state with the session closed and the sink ended.
abbrev pub commit :
    PushConfig
    → (now : ℕ) → (job_id ticket_id checksum : String) → PushPreparation
    → PushState
    → Reply PushSessionResult
commit c now job_id ticket_id checksum prep s =
    let closed_tickets = (close_ticket ticket_id s.tickets).1 in
    if prep.dry_run
    then (
      ok (record {
        job_id = "dry-run";
        checksum = checksum;
        bytes_received = s.session.bytes_received;
        dry_run = true;
      }),
      record s { tickets = closed_tickets },
    )
    else elim (Jobs.create (new_job c job_id prep.repo prep.staging_path checksum now) s.jobs) [
      | none ↦ (err job_rejected, s)
      | some jobs ↦ (
        ok (record {
          job_id = job_id;
          checksum = checksum;
          bytes_received = s.session.bytes_received;
          dry_run = false;
        }),
        record s { jobs = jobs; tickets = closed_tickets },
      )
    ]

abbrev pub end_sink : Header → PushState → PushState
end_sink h s = record s {
  session = record s.session { closed = true };
  files = put_file h.path (some h.content) s.files;
}

unfoldable pub finish : PushConfig → ℕ → String → PushState → Reply PushSessionResult
finish c now job_id s =
    if s.session.closed then (err already_finished, s) else elim (header s.session) [
      | none ↦ (err finish_before_header, s)
      | some h ↦ elim (c.on_before_push h.repo h.username h.path s.session.sync_options) [
        | err message ↦ (err (preparation_failed message), end_sink h s)
        | ok prep ↦ commit c now job_id h.ticket_id (c.sha256 s.session.hashed) prep (end_sink h s)
      ]
    ]

abbrev pub remove_file : Option String → (String → Option Bytes) → String → Option Bytes
remove_file none files = files
remove_file (some path) files = if truthy (some path) then put_file path none files else files

unfoldable pub abort : PushState → PushState
abort s = if s.session.closed then s else record s {
  session = record s.session { closed = true };
  files = remove_file s.session.staging_file_path s.files;
}
