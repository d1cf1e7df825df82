-- ===== src/Storage/Push/Tests.antt =====
-- Runs of a push session and of a pull.
use deltix_server.Common.{
  true, false, nat_eq, ◌≡◌, refl, false, List, [], ◌∷◌, none, some, string_eq, ◌==◌, if◌then◌else◌,
  ok, err, arith, length,
}
use deltix_server.Storage.Stream.{
  PushMessage, chunk, summary, new_stream, process_message, dispatch_message, finalize_stream,
  process_all, push_call,
}
use deltix_server.Transfer.Service.{
  close_ticket, renew_ticket, assert_role_still_sufficient, consume_check, consume_outcome,
  consume_ticket, role_sufficient, RepoRoleVerifier, minimum_role, new_ticket,
}
use deltix_server.Transfer.Store.{close, renew, activate, ticket_id, get}
use deltix_server.Storage.Push.Laws.{
  exec, SessionCall, receives_header, receives_chunk, receives_heartbeat, exec_all, Staged,
  finish_stages_content,
}
use deltix_server.Storage.Push.{
  on_chunk, on_heartbeat, PushSessionResult, PushConfig, PushState, Header, fresh_session,
  no_preparation, on_header, finish, header, new_job,
}
use deltix_server.Table.{affected, update, find}
use deltix_server.Table.Keys.{insert, Unique}
use deltix_server.Auth.Roles.{reader, role_rank}
use deltix_server.Transfer.Types.{pull, Ticket}
use deltix_server.Transfer.Service.Consume.{Consumable}
use deltix_server.Storage.Jobs.{create}
use deltix_server.Storage.Push.Ticket.{any_operation_pushes}
use deltix_server.Storage.Stream

-- Bob only reads `r`, and holds a ticket to pull it.
abbrev roles : RepoRoleVerifier
roles username repo = if username == "bob" then some reader else none

abbrev ticket : Ticket
ticket = new_ticket 60 500 500 "t2" "bob" pull "r" none

abbrev config : PushConfig
config = record {
  verify = some roles;
  ttl_seconds = 60;
  max_retries = 3;
  sha256 = λ bytes. if length bytes == 3 then "three" else "other";
  staging_path = λ repo uuid. "/ssd/x.staging";
  on_before_push = no_preparation;
}

abbrev state : PushState
state = record { session = fresh_session; tickets = ticket ∷ []; jobs = []; files = λ path. none }

abbrev calls : List SessionCall
calls =
    receives_header 600 "x" "t2" pull "r"
    ∷ receives_chunk (7 ∷ 8 ∷ [])
    ∷ receives_heartbeat 700
    ∷ receives_chunk (9 ∷ [])
    ∷ []

abbrev result : PushSessionResult
result = record { job_id = "j1"; checksum = "three"; bytes_received = 3; dry_run = false }

finished : (finish config 800 "j1" (exec_all config calls state)).0 ≡ ok result
unfolding finish exec_all exec on_chunk on_heartbeat on_header consume_ticket consume_check get find
    assert_role_still_sufficient role_sufficient role_rank minimum_role consume_outcome activate
    affected update create insert close_ticket renew_ticket close renew
finished = refl

finish_stages_content_example :
    Staged config result (finish config 800 "j1" (exec_all config calls state)).1
finish_stages_content_example =
    finish_stages_content config calls state 800 "j1" result ((λ e. cc), (tt, (tt, (tt, tt))))
      (refl, refl) finished refl

abbrev strict : PushConfig
strict = record config { on_before_push = λ repo username path options. err "no" }

abbrev opened : PushState
opened = exec_all strict calls state

abbrev bob_header : Header
bob_header = record {
  ticket_id = "t2";
  repo = "r";
  path = "/ssd/x.staging";
  content = 7 ∷ 8 ∷ 9 ∷ [];
  username = "bob";
}

still_open : opened.session.closed ≡ false
unfolding exec_all exec on_chunk on_heartbeat on_header consume_ticket consume_check get find
    assert_role_still_sufficient role_sufficient role_rank minimum_role consume_outcome activate
    affected update
still_open = refl

has_header : header opened.session ≡ some bob_header
unfolding exec_all exec on_chunk on_heartbeat on_header consume_ticket consume_check get find
    assert_role_still_sufficient role_sufficient role_rank minimum_role consume_outcome activate
    affected update
has_header = refl

tickets-Unique : Unique ticket_id state.tickets
unfolding find
tickets-Unique = (refl, tt)

accepted : (on_header config 600 "x" "t2" pull "r" state).0 ≡ ok tt
unfolding on_header consume_ticket consume_check get find assert_role_still_sufficient
    role_sufficient role_rank minimum_role consume_outcome activate affected update
accepted = refl

stored : get "t2" state.tickets ≡ some ticket
unfolding get find
stored = refl

fit : Consumable (some roles) 600 pull "r" ticket
unfolding role_rank minimum_role
fit = record {
  for_operation = refl;
  for_repo = refl;
  unused = refl;
  in_time = omega arith;
  allowed = (reader, refl, omega arith);
}

free :
    create (new_job config "j1" "r" "/ssd/x.staging" "other" 800) []
    ≡ some (new_job config "j1" "r" "/ssd/x.staging" "other" 800 ∷ [])
unfolding create insert find
free = refl

any_operation_pushes_example :
    let opened = on_header config 600 "x" "t2" pull "r" state in
    (opened.0 ≡ ok tt)
    × (r : PushSessionResult) × ((finish config 800 "j1" opened.1).0 ≡ ok r)
    × (r.job_id ≡ "j1")
    × (r.dry_run ≡ false)
any_operation_pushes_example =
    any_operation_pushes config 600 "x" "t2" pull "r" state 800 "j1" ticket tickets-Unique refl
      stored fit (λ e. cc) (λ e. cc) (λ e. cc) (λ e. cc) refl free

abbrev messages : List PushMessage
messages = Stream.header 600 "x" "t2" pull "r" ∷ chunk (7 ∷ 8 ∷ []) ∷ chunk (9 ∷ []) ∷ []

answered : (push_call config 800 "j1" true messages state).replies ≡ summary result ∷ []
unfolding push_call process_all process_message dispatch_message finalize_stream finish on_chunk
    on_header consume_ticket consume_check get find assert_role_still_sufficient role_sufficient
    role_rank minimum_role consume_outcome activate affected update create insert close_ticket close
answered = refl
