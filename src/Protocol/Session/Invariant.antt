-- ===== src/Protocol/Session/Invariant.antt =====
-- session.cpp: what holds of a session between two calls.
use wiretone.Prelude.{
  ℕ, ◌+◌, ◌%◌, ◌^◌, ◌≤◌, ◌<◌, ◌≡◌, ◌≢◌, refl, Bool, true, false, ◌&&◌, arith, ltb, length,
  length-set, inl, inr, Bool-cases,
}
use wiretone.Protocol.Control.Types.{ControlPayloadError}
use wiretone.Protocol.Control.Start.{validate_stream_start}
use wiretone.Protocol.Audio.Types.{AudioFrameError, AudioReassemblyResult, ReassembledAudioFrame}
use wiretone.Protocol.Audio.Reassembler
use wiretone.Protocol.Audio.Reassembler.{expire_incomplete}
use wiretone.Protocol.Audio.Clock.{IsAt, advance_time-IsAt}
use wiretone.Protocol.Session.Types.{
  ReceiverSessionState, ReceiverSessionError, ReceiverSessionResult, ReceiverSession, new,
}
use wiretone.Protocol.Session.Handlers.{
  clear_stream_state, reset, check_liveness, observe_expiry, observe_time, drop_oldest,
  enqueue_frame, pop_frame,
}

-- The queue's indices stay in its array. An idle session has no stream and no frames; a streaming
-- one has a stream id, a format that is supported, and has heard of the stream less than 3 s
-- before the time of the last call. The reassembler's clock is not ahead of the session's.
pub record IsValid (s : ReceiverSession) : Type 0 where
  pub queue_length : length s.frame_queue ≡ 8
  pub head_in : s.queue_head < 8
  pub size_in : s.queue_size ≤ 8
  pub idle_id : s.state ≡ ReceiverSessionState.idle → s.active_stream_id ≡ 0
  pub idle_queue : s.state ≡ ReceiverSessionState.idle → s.queue_size ≡ 0
  pub streaming_id : s.state ≡ ReceiverSessionState.streaming → s.active_stream_id ≢ 0
  pub streaming_format :
      s.state ≡ ReceiverSessionState.streaming
      → validate_stream_start s.active_format ≡ ControlPayloadError.none
  pub observed : s.state ≡ ReceiverSessionState.streaming → s.has_observed_time ≡ true
  pub heard :
      s.state ≡ ReceiverSessionState.streaming
      → (s.last_liveness_time_ms ≤ s.last_observed_time_ms)
        × (s.last_observed_time_ms < s.last_liveness_time_ms + 3_000)
  pub clock_on : s.reassembler.has_observed_time ≡ true → s.has_observed_time ≡ true
  pub clock_behind :
      s.reassembler.has_observed_time ≡ true
      → s.reassembler.last_observed_time_ms ≤ s.last_observed_time_ms
  pub time_width : s.last_observed_time_ms < 2 ^ 64

reset_unobserved : Reassembler.reset.has_observed_time ≡ false
unfolding Reassembler.reset
reset_unobserved = refl

pub new-IsValid : IsValid new
unfolding new
new-IsValid = ground (arith, reset_unobserved)

-- The session is at a time: of its last call, and its reassembler's.
pub record IsAtTime (s : ReceiverSession) (t : ℕ) : Type 0 where
  pub has_observed_time : s.has_observed_time ≡ true
  pub last_observed_time_ms : s.last_observed_time_ms ≡ t
  pub clock : s.reassembler.has_observed_time ≡ true → s.reassembler.last_observed_time_ms ≡ t

-- What the reset of the stream leaves.
pub record IsCleared (s c : ReceiverSession) : Type 0 where
  pub state : c.state ≡ ReceiverSessionState.idle
  pub stream : c.active_stream_id ≡ 0
  pub reassembler : c.reassembler.has_observed_time ≡ false
  pub head : c.queue_head ≡ 0
  pub size : c.queue_size ≡ 0
  pub queue : c.frame_queue ≡ s.frame_queue
  pub observed : c.has_observed_time ≡ s.has_observed_time
  pub time : c.last_observed_time_ms ≡ s.last_observed_time_ms

pub clear_stream_state-IsCleared : (s : ReceiverSession) → IsCleared s (clear_stream_state s)
unfolding clear_stream_state
clear_stream_state-IsCleared s = ground (arith, reset_unobserved)

-- What holds of a session whose liveness is still to be checked.
record IsUnchecked (s : ReceiverSession) (t : ℕ) : Type 0 where
  queue_length : length s.frame_queue ≡ 8
  head_in : s.queue_head < 8
  size_in : s.queue_size ≤ 8
  idle_id : s.state ≡ ReceiverSessionState.idle → s.active_stream_id ≡ 0
  idle_queue : s.state ≡ ReceiverSessionState.idle → s.queue_size ≡ 0
  streaming_id : s.state ≡ ReceiverSessionState.streaming → s.active_stream_id ≢ 0
  streaming_format :
      s.state ≡ ReceiverSessionState.streaming
      → validate_stream_start s.active_format ≡ ControlPayloadError.none
  heard : s.state ≡ ReceiverSessionState.streaming → s.last_liveness_time_ms ≤ t
  observed : s.has_observed_time ≡ true
  time : s.last_observed_time_ms ≡ t
  clock : s.reassembler.last_observed_time_ms ≡ t
  time_width : t < 2 ^ 64

check_liveness-IsValid :
    (s : ReceiverSession) (t : ℕ) (result : ReceiverSessionResult)
    → IsUnchecked s t
    → IsValid (check_liveness s t result).1
      × IsAtTime (check_liveness s t result).1 t
      × ((check_liveness s t result).0.error ≡ result.error)
unfolding check_liveness
check_liveness-IsValid s t result h = ground (arith, clear_stream_state-IsCleared s)

-- A time that `observe_time` refuses.
abbrev pub is_past : ReceiverSession → ℕ → Bool
is_past s t = s.has_observed_time && ltb t s.last_observed_time_ms

observe_expiry-IsValid :
    (s : ReceiverSession) (t : ℕ) (expiry : AudioReassemblyResult)
    → expiry.error ≡ AudioFrameError.none
    → IsUnchecked s t
    → IsValid (observe_expiry s t expiry).1
      × IsAtTime (observe_expiry s t expiry).1 t
      × ((observe_expiry s t expiry).0.error ≡ ReceiverSessionError.none)
unfolding observe_expiry
observe_expiry-IsValid s t expiry e h = rw e (
    check_liveness-IsValid _ t _ (record {
      queue_length = h.queue_length;
      head_in = h.head_in;
      size_in = h.size_in;
      idle_id = h.idle_id;
      idle_queue = h.idle_queue;
      streaming_id = h.streaming_id;
      streaming_format = h.streaming_format;
      heard = h.heard;
      observed = h.observed;
      time = h.time;
      clock = h.clock;
      time_width = h.time_width;
    }))

pub expire_incomplete-IsAt :
    (s : ReceiverSession) (t : ℕ)
    → IsValid s
    → is_past s t ≡ false
    → ((expire_incomplete s.reassembler t).0.error ≡ AudioFrameError.none)
      × IsAt (expire_incomplete s.reassembler t).1 t
unfolding expire_incomplete
expire_incomplete-IsAt s t v past = advance_time-IsAt s.reassembler t (ground (arith, v))

-- At a time that is not past, the session is brought to that time, without an error.
pub observe_time-now :
    (s : ReceiverSession) (t : ℕ)
    → t < 2 ^ 64
    → IsValid s
    → is_past s t ≡ false
    → IsValid (observe_time s t).1
      × IsAtTime (observe_time s t).1 t
      × ((observe_time s t).0.error ≡ ReceiverSessionError.none)
unfolding observe_time
observe_time-now s t w v past =
    let (ok, at) = expire_incomplete-IsAt s t v past in
    rw past (observe_expiry-IsValid _ t _ ok (ground (arith, v, at)))

-- At a past time nothing changes.
pub observe_time-past :
    (s : ReceiverSession) (t : ℕ)
    → is_past s t ≡ true
    → ((observe_time s t).0.error ≡ ReceiverSessionError.non_monotonic_time)
      × ((observe_time s t).1 ≡ s)
unfolding observe_time
observe_time-past s t past = rw past (refl, refl)

pub observe_time-IsValid :
    (s : ReceiverSession) (t : ℕ) → t < 2 ^ 64 → IsValid s → IsValid (observe_time s t).1
observe_time-IsValid s t w v = elim (Bool-cases (is_past s t)) [
  | inl past ↦ rw (observe_time-past s t past).1 v
  | inr now ↦ (observe_time-now s t w v now).0
]

-- The queue's operations keep the invariant, if frames are queued while streaming only.
pub drop_oldest-IsValid : (s : ReceiverSession) → IsValid s → IsValid (drop_oldest s)
unfolding drop_oldest
drop_oldest-IsValid s v = ground (arith, v)

pub room : (s : ReceiverSession) → IsValid s → (drop_oldest s).queue_size ≤ 7
unfolding drop_oldest
room s v = ground (arith, v)

same_state : (s : ReceiverSession) → (drop_oldest s).state ≡ s.state
unfolding drop_oldest
same_state s = ground arith

pub enqueue_frame-IsValid :
    (s : ReceiverSession) (frame : ReassembledAudioFrame)
    → IsValid s
    → s.state ≡ ReceiverSessionState.streaming
    → IsValid (enqueue_frame s frame)
unfolding enqueue_frame
enqueue_frame-IsValid s frame v on = ground (
  arith,
  drop_oldest-IsValid s v,
  room s v,
  same_state s,
  length-set (drop_oldest s).frame_queue
      (((drop_oldest s).queue_head + (drop_oldest s).queue_size) % 8) frame,
)

pub pop_frame-IsValid : (s : ReceiverSession) → IsValid s → IsValid (pop_frame s).1
unfolding pop_frame
pop_frame-IsValid s v = ground (arith, v)

pub reset-IsValid : (s : ReceiverSession) → IsValid s → IsValid (reset s)
unfolding reset
reset-IsValid s v = ground (arith, clear_stream_state-IsCleared s, v)
