-- ===== src/Storage/Stream/Laws.antt =====
-- What a push call is answered with.
use deltix_server.Common.{
  ℕ, ◌≡◌, ◌≢◌, refl, Bool, true, false, String, List, [], ◌∷◌, none, some, ok, arith, inl, inr,
  Option-cases, Result-cases, All,
}
use deltix_server.Storage.Push.{
  PushSessionResult, PushConfig, PushState, on_header, on_chunk, finish,
}
use deltix_server.Storage.Stream.{
  summary, PushMessage, header, chunk, empty, cancelled, stream_error, PushStream, new_stream,
  mark_aborted, dispatch_message, process_message, finalize_stream, process_all, push_call,
}

-- While the stream lasts nothing is answered, and an abort that no cancellation made waits.
abbrev pub IsWaiting : Bool → PushStream → Type 0
IsWaiting may_cancel s =
    (s.replies ≡ [])
    × (s.stream_ended ≡ false)
    × (may_cancel ≡ false → s.aborted ≡ true → s.pending_abort ≢ none)

abbrev pub NotCancelled : PushMessage → Type 0
NotCancelled cancelled = ⊥
NotCancelled _ = Unit

module _ (c : PushConfig) where
  process_message-IsWaiting :
      (b : Bool) (m : PushMessage) (s : PushStream)
      → (b ≡ false → NotCancelled m)
      → IsWaiting b s
      → IsWaiting b (process_message c m s)
  unfolding process_message dispatch_message mark_aborted
  process_message-IsWaiting b (header now uuid id op repo) s real w =
      elim (Result-cases (on_header c now uuid id op repo s.push).0) [
        | inl (a, fine) ↦ ground (arith, w, fine)
        | inr (e, failed) ↦ ground (arith, w, failed)
      ]
  process_message-IsWaiting b (chunk bytes) s real w =
      elim (Result-cases (on_chunk bytes s.push).0) [
        | inl (a, fine) ↦ ground (arith, w, fine)
        | inr (e, failed) ↦ ground (arith, w, failed)
      ]
  process_message-IsWaiting b empty s real w = ground (arith, w)
  process_message-IsWaiting b cancelled s real w = ground (arith, w, real)
  process_message-IsWaiting b stream_error s real w = ground (arith, w)

  process_all-IsWaiting :
      (b : Bool) (ms : List PushMessage) (s : PushStream)
      → All (λ m. b ≡ false → NotCancelled m) ms
      → IsWaiting b s
      → IsWaiting b (process_all c ms s)
  unfolding process_all
  process_all-IsWaiting b [] s real w = w
  process_all-IsWaiting b (m ∷ ms) s real w =
      process_all-IsWaiting b ms (process_message c m s) real.1
        (process_message-IsWaiting b m s real.0 w)

  with_cancel : (ms : List PushMessage) → All (λ m. true ≡ false → NotCancelled m) ms
  with_cancel [] = tt
  with_cancel (m ∷ ms) = ((λ e. cc), with_cancel ms)

  process_message-pending :
      (m : PushMessage) (s : PushStream) (r : PushSessionResult)
      → s.pending_abort ≢ some (summary r)
      → (process_message c m s).pending_abort ≢ some (summary r)
  unfolding process_message dispatch_message mark_aborted
  process_message-pending (header now uuid id op repo) s r h =
      elim (Result-cases (on_header c now uuid id op repo s.push).0) [
        | inl (a, fine) ↦ ground (arith, h, fine)
        | inr (e, failed) ↦ ground (arith, h, failed)
      ]
  process_message-pending (chunk bytes) s r h = elim (Result-cases (on_chunk bytes s.push).0) [
    | inl (a, fine) ↦ ground (arith, h, fine)
    | inr (e, failed) ↦ ground (arith, h, failed)
  ]
  process_message-pending empty s r h = ground (arith, h)
  process_message-pending cancelled s r h = ground (arith, h)
  process_message-pending stream_error s r h = ground (arith, h)

  process_all-pending :
      (ms : List PushMessage) (s : PushStream) (r : PushSessionResult)
      → s.pending_abort ≢ some (summary r)
      → (process_all c ms s).pending_abort ≢ some (summary r)
  unfolding process_all
  process_all-pending [] s r h = h
  process_all-pending (m ∷ ms) s r h =
      process_all-pending ms (process_message c m s) r (process_message-pending m s r h)

  finalize_stream-summary :
      (now : ℕ) (job_id : String) (s : PushStream) (r : PushSessionResult)
      → s.pending_abort ≢ some (summary r)
      → s.replies ≡ []
      → (finalize_stream c now job_id (record s { stream_ended = true })).replies ≡ summary r ∷ []
      → (s.aborted ≡ false) × (s.header_received ≡ true) × ((finish c now job_id s.push).0 ≡ ok r)
  unfolding finalize_stream mark_aborted
  finalize_stream-summary now job_id s r pending none_yet h =
      elim (Result-cases (finish c now job_id s.push).0) [
        | inl (t, fine) ↦ elim (Option-cases s.pending_abort) [
          | inl nothing ↦ ground (arith, h, none_yet, fine, nothing)
          | inr (f, waits) ↦ ground (arith, h, none_yet, fine, waits, pending)
        ]
        | inr (e, failed) ↦ elim (Option-cases s.pending_abort) [
          | inl nothing ↦ absurd (ground (arith, h, none_yet, failed, nothing))
          | inr (f, waits) ↦ absurd (ground (arith, h, none_yet, failed, waits, pending))
        ]
      ]

  -- A push call that is answered with a summary was not aborted and had a header, and the summary
  -- is the result of finishing the session that its messages made.
  pub summary_is_finish :
      (now : ℕ) (job_id : String) (ms : List PushMessage) (p : PushState) (r : PushSessionResult)
      → (push_call c now job_id true ms p).replies ≡ summary r ∷ []
      → let s = process_all c ms (new_stream p) in
        (s.aborted ≡ false) × (s.header_received ≡ true) × ((finish c now job_id s.push).0 ≡ ok r)
  unfolding push_call
  summary_is_finish now job_id ms p r h =
      finalize_stream-summary now job_id (process_all c ms (new_stream p)) r
        (process_all-pending ms (new_stream p) r (λ e. cc))
        (process_all-IsWaiting true ms (new_stream p) (with_cancel ms) (refl, refl, λ e. cc)).0 h
