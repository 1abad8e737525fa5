-- ===== src/Protocol/Session/Types.antt =====
-- session.hpp: the session's state, events, errors, counters and results.
use wiretone.Prelude.{ℕ, ◌+◌, ◌%◌, ◌^◌, Bool, true, false, List, replicate}
use wiretone.Protocol.Packet.{ProtocolError}
use wiretone.Protocol.Control.Types.{ControlPayloadError, StreamStartPayload, default_stream_start}
use wiretone.Protocol.Audio.Types.{AudioFrameError, ReassembledAudioFrame, empty_frame}
use wiretone.Protocol.Audio.Reassembler.{Reassembler, reset}

abbrev pub receiver_frame_queue_capacity : ℕ
receiver_frame_queue_capacity = 8

abbrev pub receiver_session_timeout_ms : ℕ
receiver_session_timeout_ms = 3_000

pub data ReceiverSessionState : Type 0 where
  idle streaming : ReceiverSessionState

pub data ReceiverSessionEvent : Type 0 where
  none stream_started stream_replaced stream_stopped heartbeat_received : ReceiverSessionEvent
  frame_queued remote_error_received session_timed_out : ReceiverSessionEvent

pub data ReceiverSessionError : Type 0 where
  none non_monotonic_time malformed_datagram invalid_control_payload : ReceiverSessionError
  stream_not_started wrong_stream unexpected_packet_type : ReceiverSessionError
  audio_reassembly_failed : ReceiverSessionError

-- `error == ReceiverSessionError::none`
abbrev pub is_none : ReceiverSessionError → Bool
is_none ReceiverSessionError.none = true
is_none _ = false

-- `std::uint64_t` each.
pub record ReceiverSessionCounters : Type 0 where
  pub datagrams_received : ℕ
  pub malformed_datagrams : ℕ
  pub invalid_control_payloads : ℕ
  pub rejected_before_start : ℕ
  pub wrong_stream_datagrams : ℕ
  pub unexpected_packet_types : ℕ
  pub duplicate_fragments : ℕ
  pub inconsistent_fragments : ℕ
  pub expired_frames : ℕ
  pub completed_frames : ℕ
  pub dropped_frames : ℕ
  pub discontinuities : ℕ
  pub stream_starts : ℕ
  pub stream_replacements : ℕ
  pub stream_stops : ℕ
  pub heartbeats : ℕ
  pub remote_errors : ℕ
  pub session_timeouts : ℕ

abbrev pub zero_counters : ReceiverSessionCounters
zero_counters = record {
  datagrams_received = 0;
  malformed_datagrams = 0;
  invalid_control_payloads = 0;
  rejected_before_start = 0;
  wrong_stream_datagrams = 0;
  unexpected_packet_types = 0;
  duplicate_fragments = 0;
  inconsistent_fragments = 0;
  expired_frames = 0;
  completed_frames = 0;
  dropped_frames = 0;
  discontinuities = 0;
  stream_starts = 0;
  stream_replacements = 0;
  stream_stops = 0;
  heartbeats = 0;
  remote_errors = 0;
  session_timeouts = 0;
}

-- `counter += n` on `std::uint64_t`.
abbrev pub add_u64 : ℕ → ℕ → ℕ
add_u64 counter n = (counter + n) % 2 ^ 64

pub record ReceiverSessionResult : Type 0 where
  pub error : ReceiverSessionError
  pub event : ReceiverSessionEvent
  pub protocol_error : ProtocolError
  pub control_error : ControlPayloadError
  pub audio_error : AudioFrameError
  pub expired_frame_count : ℕ  -- size_t
  pub frame_queued : Bool

-- `ReceiverSessionResult{}`
abbrev pub empty_result : ReceiverSessionResult
empty_result = record {
  error = ReceiverSessionError.none;
  event = ReceiverSessionEvent.none;
  protocol_error = ProtocolError.none;
  control_error = ControlPayloadError.none;
  audio_error = AudioFrameError.none;
  expired_frame_count = 0;
  frame_queued = false;
}

pub record ReceiverSession : Type 0 where
  pub state : ReceiverSessionState
  pub active_stream_id : ℕ  -- uint32
  pub active_format : StreamStartPayload
  pub reassembler : Reassembler
  pub frame_queue : List ReassembledAudioFrame
  pub queue_head : ℕ  -- size_t
  pub queue_size : ℕ  -- size_t
  pub has_observed_time : Bool
  pub last_observed_time_ms : ℕ  -- uint64
  pub last_liveness_time_ms : ℕ  -- uint64
  pub last_sender_monotonic_time_us : ℕ  -- uint64
  pub counters : ReceiverSessionCounters

-- `ReceiverSession{}`
unfoldable pub new : ReceiverSession
new = record {
  state = ReceiverSessionState.idle;
  active_stream_id = 0;
  active_format = default_stream_start;
  reassembler = reset;
  frame_queue = replicate receiver_frame_queue_capacity empty_frame;
  queue_head = 0;
  queue_size = 0;
  has_observed_time = false;
  last_observed_time_ms = 0;
  last_liveness_time_ms = 0;
  last_sender_monotonic_time_us = 0;
  counters = zero_counters;
}

-- `ReceiverSession::streaming`
abbrev pub is_streaming : ReceiverSessionState → Bool
is_streaming ReceiverSessionState.streaming = true
is_streaming ReceiverSessionState.idle = false
