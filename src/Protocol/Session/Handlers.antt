-- ===== src/Protocol/Session/Handlers.antt =====
-- session.cpp: the parts of a call, each with the result so far and the session. They return the
-- result and the session after them.
use mathlib.Core.Option.{Option, none, some}
use wiretone.Prelude.{
  ℕ, ◌+◌, ◌-◌, ◌%◌, ◌^◌, true, false, ◌&&◌, not, ltb, leb, ◌==◌, if◌then◌else◌, get_or, set,
}
use wiretone.Protocol.Packet.{ParseResult}
use wiretone.Protocol.Control.Types.{
  ControlPayloadError, ControlParseResult, StreamStartPayload, HeartbeatPayload, StreamStopPayload,
  ErrorPayloadView, default_stream_start,
}
use wiretone.Protocol.Control.Types
use wiretone.Protocol.Control.Start.{parse_stream_start}
use wiretone.Protocol.Control.Fixed.{parse_stream_stop, parse_heartbeat}
use wiretone.Protocol.Control.Message.{parse_error_payload}
use wiretone.Protocol.Audio.Types.{
  AudioFrameError, AudioReassemblyResult, ReassembledAudioFrame, empty_frame,
}
use wiretone.Protocol.Audio.Types as Audio
use wiretone.Protocol.Audio.Slot.{sub_u64}
use wiretone.Protocol.Audio.Reassembler
use wiretone.Protocol.Audio.Reassembler.{expire_incomplete}
use wiretone.Protocol.Session.Types.{
  receiver_frame_queue_capacity, receiver_session_timeout_ms, ReceiverSessionState,
  ReceiverSessionEvent, ReceiverSessionError, zero_counters, add_u64, ReceiverSessionResult,
  empty_result, ReceiverSession, is_streaming,
}

unfoldable pub clear_frame_queue : ReceiverSession → ReceiverSession
clear_frame_queue s = record s { queue_head = 0; queue_size = 0 }

unfoldable pub clear_stream_state : ReceiverSession → ReceiverSession
unfolding clear_frame_queue
clear_stream_state s = record (clear_frame_queue s) {
  state = ReceiverSessionState.idle;
  active_stream_id = 0;
  active_format = default_stream_start;
  reassembler = Reassembler.reset;
  last_sender_monotonic_time_us = 0;
}

unfoldable pub reset : ReceiverSession → ReceiverSession
unfolding clear_stream_state
reset s = record (clear_stream_state s) {
  has_observed_time = false;
  last_observed_time_ms = 0;
  last_liveness_time_ms = 0;
  counters = zero_counters;
}

-- The timeout check at the end of `observe_time`.
unfoldable pub check_liveness :
    ReceiverSession → ℕ → ReceiverSessionResult → ReceiverSessionResult × ReceiverSession
check_liveness s now_ms result =
    if is_streaming s.state
      && leb receiver_session_timeout_ms (sub_u64 now_ms s.last_liveness_time_ms)
    then (
      record result { event = ReceiverSessionEvent.session_timed_out },
      record (clear_stream_state s) {
        counters = record (s.counters) { session_timeouts = add_u64 s.counters.session_timeouts 1 };
      },
    )
    else (result, s)

-- From the call of the reassembler on, on its result.
unfoldable pub observe_expiry :
    ReceiverSession → ℕ → AudioReassemblyResult → ReceiverSessionResult × ReceiverSession
observe_expiry s now_ms expiry =
    if not (Audio.is_none expiry.error)
    then (
      record empty_result {
        error = ReceiverSessionError.audio_reassembly_failed;
        audio_error = expiry.error;
      },
      s,
    )
    else check_liveness
        (record s {
          counters = record (s.counters) {
            expired_frames = add_u64 s.counters.expired_frames expiry.expired_frame_count;
          };
        })
        now_ms (record empty_result { expired_frame_count = expiry.expired_frame_count })

unfoldable pub observe_time : ReceiverSession → ℕ → ReceiverSessionResult × ReceiverSession
observe_time s now_ms =
    if s.has_observed_time && ltb now_ms s.last_observed_time_ms
    then (record empty_result { error = ReceiverSessionError.non_monotonic_time }, s)
    else let (expiry, reassembler) = expire_incomplete s.reassembler now_ms in
      observe_expiry
        (record s {
          has_observed_time = true;
          last_observed_time_ms = now_ms;
          reassembler = reassembler;
        })
        now_ms expiry

unfoldable pub advance_time : ReceiverSession → ℕ → ReceiverSessionResult × ReceiverSession
advance_time s now_ms = observe_time s now_ms

-- The drop of the oldest frame from a full queue.
unfoldable pub drop_oldest : ReceiverSession → ReceiverSession
drop_oldest s =
    if s.queue_size == receiver_frame_queue_capacity
    then record s {
      queue_head = (s.queue_head + 1) % receiver_frame_queue_capacity;
      queue_size = s.queue_size - 1;
      counters = record (s.counters) { dropped_frames = add_u64 s.counters.dropped_frames 1 };
    }
    else s

unfoldable pub enqueue_frame : ReceiverSession → ReassembledAudioFrame → ReceiverSession
enqueue_frame s frame = insert (drop_oldest s)
  where
    insert : ReceiverSession → ReceiverSession
    insert s = record s {
      frame_queue =
          set s.frame_queue ((s.queue_head + s.queue_size) % receiver_frame_queue_capacity) frame;
      queue_size = (s.queue_size + 1) % 2 ^ 64;
    }

-- The output is the popped frame, if any.
unfoldable pub pop_frame : ReceiverSession → Option ReassembledAudioFrame × ReceiverSession
pop_frame s = if s.queue_size == 0 then (none, s) else (
  some (get_or s.frame_queue s.queue_head empty_frame),
  record s {
    queue_head = (s.queue_head + 1) % receiver_frame_queue_capacity;
    queue_size = s.queue_size - 1;
  },
)

-- The refusal of a control payload.
unfoldable pub refuse_control :
    ReceiverSession
    → ControlPayloadError
    → ReceiverSessionResult
    → ReceiverSessionResult × ReceiverSession
refuse_control s error result = (
  record result { error = ReceiverSessionError.invalid_control_payload; control_error = error },
  record s {
    counters = record (s.counters) {
      invalid_control_payloads = add_u64 s.counters.invalid_control_payloads 1;
    };
  },
)

unfoldable pub handle_stream_start :
    ReceiverSession
    → ParseResult
    → ℕ
    → ReceiverSessionResult
    → ReceiverSessionResult × ReceiverSession
handle_stream_start s parsed arrival_time_ms result =
    if not (Types.is_none payload.error) then refuse_control s payload.error result else (
      record result {
        event =
            if is_streaming s.state
            then ReceiverSessionEvent.stream_replaced
            else ReceiverSessionEvent.stream_started;
      },
      record (clear_stream_state s) {
        state = ReceiverSessionState.streaming;
        active_stream_id = parsed.header.stream_id;
        active_format = payload.value;
        last_liveness_time_ms = arrival_time_ms;
        counters = record (s.counters) {
          stream_starts = add_u64 s.counters.stream_starts 1;
          stream_replacements =
              if is_streaming s.state
              then add_u64 s.counters.stream_replacements 1
              else s.counters.stream_replacements;
        };
      },
    )
  where
    payload : ControlParseResult StreamStartPayload
    payload = parse_stream_start parsed.payload

unfoldable pub handle_stream_stop :
    ReceiverSession → ParseResult → ReceiverSessionResult → ReceiverSessionResult × ReceiverSession
handle_stream_stop s parsed result =
    if not (Types.is_none payload.error) then refuse_control s payload.error result else (
      record result { event = ReceiverSessionEvent.stream_stopped },
      record (clear_stream_state s) {
        counters = record (s.counters) { stream_stops = add_u64 s.counters.stream_stops 1 };
      },
    )
  where
    payload : ControlParseResult StreamStopPayload
    payload = parse_stream_stop parsed.payload

unfoldable pub handle_heartbeat :
    ReceiverSession
    → ParseResult
    → ℕ
    → ReceiverSessionResult
    → ReceiverSessionResult × ReceiverSession
handle_heartbeat s parsed arrival_time_ms result =
    if not (Types.is_none payload.error) then refuse_control s payload.error result else (
      record result { event = ReceiverSessionEvent.heartbeat_received },
      record s {
        last_liveness_time_ms = arrival_time_ms;
        last_sender_monotonic_time_us = payload.value.sender_monotonic_time_us;
        counters = record (s.counters) { heartbeats = add_u64 s.counters.heartbeats 1 };
      },
    )
  where
    payload : ControlParseResult HeartbeatPayload
    payload = parse_heartbeat parsed.payload

unfoldable pub handle_error :
    ReceiverSession
    → ParseResult
    → ℕ
    → ReceiverSessionResult
    → ReceiverSessionResult × ReceiverSession
handle_error s parsed arrival_time_ms result =
    if not (Types.is_none payload.error) then refuse_control s payload.error result else (
      record result { event = ReceiverSessionEvent.remote_error_received },
      record s {
        last_liveness_time_ms = arrival_time_ms;
        counters = record (s.counters) { remote_errors = add_u64 s.counters.remote_errors 1 };
      },
    )
  where
    payload : ControlParseResult ErrorPayloadView
    payload = parse_error_payload parsed.payload
