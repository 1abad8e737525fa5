-- ===== src/Protocol/Session/Responses.antt =====
-- session.cpp: what `advance_time` answers.
use wiretone.Prelude.{
  ℕ, ◌+◌, ◌^◌, ◌≤◌, ◌<◌, ◌≡◌, false, ap, arith, leb, inl, inr, Bool-cases, if◌then◌else◌,
}
use wiretone.Protocol.Session.Types.{
  ReceiverSessionState, ReceiverSessionEvent, ReceiverSessionError, ReceiverSessionResult,
  ReceiverSession,
}
use wiretone.Protocol.Session.Handlers.{
  observe_time, observe_expiry, check_liveness, clear_stream_state, advance_time,
}
use wiretone.Protocol.Session.Invariant.{
  IsValid, is_past, expire_incomplete-IsAt, observe_time-now, observe_time-past,
}

-- `advance_time` answers `non_monotonic_time` when the time is before that of the last call, and
-- succeeds otherwise; a valid session's time is then the call's. It never answers
-- `audio_reassembly_failed`.
pub advance_time-answers :
    (s : ReceiverSession) (t : ℕ)
    → t < 2 ^ 64
    → IsValid s
    → ((advance_time s t).0.error ≡ (
        if is_past s t then ReceiverSessionError.non_monotonic_time else ReceiverSessionError.none))
      × ((advance_time s t).1.last_observed_time_ms
          ≡ (if is_past s t then s.last_observed_time_ms else t))
unfolding advance_time
advance_time-answers s t w v = elim (Bool-cases (is_past s t)) [
  | inl past ↦
      let (e, same) = observe_time-past s t past in
      rw past (e, ap (λ c. c.last_observed_time_ms) same)
  | inr now ↦
      let (_, at, ok) = observe_time-now s t w v now in rw now (ok, at.last_observed_time_ms)
]

-- The check of the time that the stream was last heard of.
module _ (s : ReceiverSession) (t : ℕ) (result : ReceiverSessionResult)
    (on : s.state ≡ ReceiverSessionState.streaming) (w : t < 2 ^ 64)
    (since : s.last_liveness_time_ms ≤ t) where
  check_liveness-timeout :
      ((check_liveness s t result).1.state ≡ (
        if leb (s.last_liveness_time_ms + 3_000) t
        then ReceiverSessionState.idle
        else ReceiverSessionState.streaming))
      × ((check_liveness s t result).0.event ≡ (
          if leb (s.last_liveness_time_ms + 3_000) t
          then ReceiverSessionEvent.session_timed_out
          else result.event))
  unfolding check_liveness clear_stream_state
  check_liveness-timeout = ground arith

-- A valid session that streams, at a time that is not past, goes idle and answers
-- `session_timed_out` when it has not heard of the stream for 3 s; before that it goes on
-- streaming.
pub advance_time-timeout :
    (s : ReceiverSession) (t : ℕ)
    → t < 2 ^ 64
    → IsValid s
    → is_past s t ≡ false
    → s.state ≡ ReceiverSessionState.streaming
    → ((advance_time s t).1.state ≡ (
        if leb (s.last_liveness_time_ms + 3_000) t
        then ReceiverSessionState.idle
        else ReceiverSessionState.streaming))
      × ((advance_time s t).0.event ≡ (
          if leb (s.last_liveness_time_ms + 3_000) t
          then ReceiverSessionEvent.session_timed_out
          else ReceiverSessionEvent.none))
unfolding advance_time observe_time observe_expiry
advance_time-timeout s t w v now on =
    let (clean, _) = expire_incomplete-IsAt s t v now in
    let (heard, _) = v.heard on in
    let observed = v.observed on in
    rw (now, clean) (check_liveness-timeout _ t _ on w (ground arith))
