-- ===== src/Storage/Stream.antt =====
-- contexts/storage/grpc-transfer-server.ts: one Push call. The queue runs the handlers of messages in
-- the order of their arrival, each to its end, and the end of the stream last. A message brings its
-- reading of the clock and its random name along; an operation that is neither push nor pull, which
-- no ticket has, is left out. A cancellation and a stream error are events between two messages;
-- after an error the stream need not end.
pub mod Laws
use deltix_server.Common.{
  ℕ, ◌+◌, ◌≤◌, ◌≡◌, ◌≢◌, ◌⊎◌, refl, Bool, true, false, String, List, [], ◌∷◌, ◌++◌, Option, none,
  some, if◌then◌else◌, Result, ok, err, arith, inl, inr, Option-cases, Result-cases, Bool-cases,
  length, All,
}
use deltix_server.Transfer.Types.{TransferOperation}
use deltix_server.Storage.Push.{
  Bytes, PushError, PushSessionResult, PushConfig, PushState, on_header, on_chunk, finish, abort,
}

pub data GrpcStatus : Type 0 where
  failed_precondition permission_denied internal : GrpcStatus

pub data StreamError : Type 0 where
  header_already_sent chunk_without_header stream_without_header : StreamError
  session_error : PushError → StreamError

-- What the callback is called with.
pub data StreamReply : Type 0 where
  summary : PushSessionResult → StreamReply
  failure : GrpcStatus → StreamError → StreamReply

pub data PushMessage : Type 0 where
  header : ℕ → (uuid ticket_id : String) → TransferOperation → String → PushMessage
  chunk : Bytes → PushMessage
  empty cancelled stream_error : PushMessage

-- `pending_abort` is the failure that waits for the end of the stream, `replies` every call of the
-- callback so far.
pub record PushStream : Type 0 where
  pub header_received : Bool
  pub aborted : Bool
  pub pending_abort : Option StreamReply
  pub stream_ended : Bool
  pub replies : List StreamReply
  pub push : PushState

abbrev pub new_stream : PushState → PushStream
new_stream p = record {
  header_received = false;
  aborted = false;
  pending_abort = none;
  stream_ended = false;
  replies = [];
  push = p;
}

abbrev pub reply : StreamReply → PushStream → PushStream
reply r s = record s { replies = s.replies ++ r ∷ [] }

unfoldable pub mark_aborted : GrpcStatus → StreamError → PushStream → PushStream
mark_aborted code e s =
    if s.aborted
    then s
    else let t = record s {
      aborted = true;
      pending_abort = some (failure code e);
      push = abort s.push;
    } in
      if s.stream_ended then reply (failure code e) t else t

-- What `processMessage` does with the outcome of the session.
abbrev pub settle_message : Result PushError (Unit {0}) × PushState → PushStream → PushStream
settle_message (ok _, p) s = record s { push = p }
settle_message (err e, p) s =
    mark_aborted permission_denied (session_error e) (record s { push = p })

unfoldable pub dispatch_message : PushConfig → PushMessage → PushStream → PushStream
dispatch_message c (header now uuid id op repo) s =
    if s.header_received
    then mark_aborted failed_precondition header_already_sent s
    else settle_message (on_header c now uuid id op repo s.push)
        (record s { header_received = true })
dispatch_message c (chunk bytes) s =
    if s.header_received
    then settle_message (on_chunk bytes s.push) s
    else mark_aborted failed_precondition chunk_without_header s
dispatch_message c empty s = s
dispatch_message c cancelled s = record s { aborted = true; push = abort s.push }
dispatch_message c stream_error s = record s { push = abort s.push }

unfoldable pub process_message : PushConfig → PushMessage → PushStream → PushStream
process_message c cancelled s = dispatch_message c cancelled s
process_message c stream_error s = dispatch_message c stream_error s
process_message c m s = if s.aborted then s else dispatch_message c m s

abbrev pub finished : Result PushError PushSessionResult × PushState → PushStream → PushStream
finished (ok r, p) s = reply (summary r) (record s { push = p })
finished (err e, p) s = mark_aborted internal (session_error e) (record s { push = p })

abbrev pub reply_pending : Option StreamReply → PushStream → PushStream
reply_pending none s = s
reply_pending (some r) s = reply r s

unfoldable pub finalize_stream : PushConfig → ℕ → String → PushStream → PushStream
finalize_stream c now job_id s =
    if s.aborted
    then reply_pending s.pending_abort s
    else if s.header_received
    then finished (finish c now job_id s.push) s
    else mark_aborted failed_precondition stream_without_header s

unfoldable pub process_all : PushConfig → List PushMessage → PushStream → PushStream
process_all c [] s = s
process_all c (m ∷ ms) s = process_all c ms (process_message c m s)

-- The whole call: the messages and the other events, then the end, if it comes.
unfoldable pub push_call :
    PushConfig → ℕ → String → (ends : Bool) → List PushMessage → PushState → PushStream
push_call c now job_id ends ms p =
    let s = process_all c ms (new_stream p) in
    if ends then finalize_stream c now job_id (record s { stream_ended = true }) else s
