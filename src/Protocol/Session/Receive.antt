-- ===== src/Protocol/Session/Receive.antt =====
-- session.cpp: `accept_datagram`.
use wiretone.Prelude.{ℕ, ◌+◌, ◌%◌, ◌^◌, Bool, true, false, not, List, ◌!=◌, if◌then◌else◌, has_flag}
use wiretone.Protocol.Packet.{PacketType, ParseResult, flag_discontinuity, parse_datagram}
use wiretone.Protocol.Packet
use wiretone.Protocol.Audio.Types.{AudioFrameError, AudioReassemblyResult}
use wiretone.Protocol.Audio.Types as Audio
use wiretone.Protocol.Audio.Reassembler
use wiretone.Protocol.Session.Types.{
  ReceiverSessionEvent, ReceiverSessionError, is_none, ReceiverSessionCounters, add_u64,
  ReceiverSessionResult, ReceiverSession, is_streaming,
}
use wiretone.Protocol.Session.Handlers.{
  clear_frame_queue, observe_time, enqueue_frame, handle_stream_start, handle_stream_stop,
  handle_heartbeat, handle_error,
}

-- The counter of a fragment that the reassembler refused.
abbrev pub count_refused : AudioFrameError → ReceiverSessionCounters → ReceiverSessionCounters
count_refused AudioFrameError.duplicate_fragment c = record c {
  duplicate_fragments = add_u64 c.duplicate_fragments 1;
}
count_refused AudioFrameError.inconsistent_fragment_metadata c = record c {
  inconsistent_fragments = add_u64 c.inconsistent_fragments 1;
}
count_refused _ c = c

-- A discontinuity clears the queue before the frame is added.
unfoldable pub clear_if_discontinuous : ReceiverSession → ℕ → ReceiverSession
clear_if_discontinuous s flags =
    if has_flag flags flag_discontinuity
    then record (clear_frame_queue s) {
      counters = record (s.counters) { discontinuities = add_u64 s.counters.discontinuities 1 };
    }
    else s

-- The frame that the reassembler has completed goes into the queue.
unfoldable pub queue_completed :
    ReceiverSession
    → AudioReassemblyResult
    → ReceiverSessionResult
    → ReceiverSessionResult × ReceiverSession
queue_completed s audio result = (
  record result { event = ReceiverSessionEvent.frame_queued; frame_queued = true },
  count (enqueue_frame (clear_if_discontinuous s audio.frame.flags) audio.frame),
)
  where
    count : ReceiverSession → ReceiverSession
    count s = record s {
      counters = record (s.counters) { completed_frames = add_u64 s.counters.completed_frames 1 };
    }

-- From the call of the reassembler on, on its result; the session has the reassembler after it.
unfoldable pub handle_reassembled :
    ReceiverSession
    → AudioReassemblyResult
    → ℕ
    → ReceiverSessionResult
    → ReceiverSessionResult × ReceiverSession
handle_reassembled s audio arrival_time_ms result =
    if not (Audio.is_none audio.error)
    then (
      record counted_result {
        error = ReceiverSessionError.audio_reassembly_failed;
        audio_error = audio.error;
        protocol_error = audio.protocol_error;
      },
      record s { counters = count_refused audio.error counted },
    )
    else if not audio.frame_completed
    then (counted_result, record s { counters = counted; last_liveness_time_ms = arrival_time_ms })
    else queue_completed (record s { counters = counted; last_liveness_time_ms = arrival_time_ms })
        audio counted_result
  where
    counted_result : ReceiverSessionResult
    counted_result = record result {
      expired_frame_count = (result.expired_frame_count + audio.expired_frame_count) % 2 ^ 64;
    }

    counted : ReceiverSessionCounters
    counted = record (s.counters) {
      expired_frames = add_u64 s.counters.expired_frames audio.expired_frame_count;
    }

unfoldable pub handle_audio :
    ReceiverSession → List ℕ → ℕ → ReceiverSessionResult → ReceiverSessionResult × ReceiverSession
handle_audio s datagram arrival_time_ms result =
    let (audio, reassembler) = Reassembler.accept_datagram s.reassembler datagram arrival_time_ms in
    handle_reassembled (record s { reassembler = reassembler }) audio arrival_time_ms result

unfoldable pub refuse_packet_type :
    ReceiverSession → ReceiverSessionResult → ReceiverSessionResult × ReceiverSession
refuse_packet_type s result = (
  record result { error = ReceiverSessionError.unexpected_packet_type },
  record s {
    counters = record (s.counters) {
      unexpected_packet_types = add_u64 s.counters.unexpected_packet_types 1;
    };
  },
)

-- The `switch`; a kind that leaves it reaches the refusal at the end of the function.
unfoldable pub dispatch :
    PacketType
    → ReceiverSession
    → List ℕ
    → ParseResult
    → ℕ
    → ReceiverSessionResult
    → ReceiverSessionResult × ReceiverSession
dispatch PacketType.stream_start s datagram parsed t result = refuse_packet_type s result
dispatch PacketType.stream_stop s datagram parsed t result = handle_stream_stop s parsed result
dispatch PacketType.heartbeat s datagram parsed t result = handle_heartbeat s parsed t result
dispatch PacketType.audio s datagram parsed t result = handle_audio s datagram t result
dispatch PacketType.error s datagram parsed t result = handle_error s parsed t result
dispatch PacketType.receiver_report s datagram parsed t result = refuse_packet_type s result
dispatch (PacketType.unlisted _) s datagram parsed t result = refuse_packet_type s result

abbrev pub is_stream_start : PacketType → Bool
is_stream_start PacketType.stream_start = true
is_stream_start _ = false

-- From the check of the parse result on.
unfoldable pub receive :
    ReceiverSession
    → List ℕ
    → ParseResult
    → ℕ
    → ReceiverSessionResult
    → ReceiverSessionResult × ReceiverSession
receive s datagram parsed t result =
    if not (Packet.is_none parsed.error)
    then (
      record result {
        error = ReceiverSessionError.malformed_datagram;
        protocol_error = parsed.error;
      },
      record s {
        counters = record (s.counters) {
          malformed_datagrams = add_u64 s.counters.malformed_datagrams 1;
        };
      },
    )
    else if is_stream_start parsed.header.type
    then handle_stream_start s parsed t result
    else if not (is_streaming s.state)
    then (
      record result { error = ReceiverSessionError.stream_not_started },
      record s {
        counters = record (s.counters) {
          rejected_before_start = add_u64 s.counters.rejected_before_start 1;
        };
      },
    )
    else if parsed.header.stream_id != s.active_stream_id
    then (
      record result { error = ReceiverSessionError.wrong_stream },
      record s {
        counters = record (s.counters) {
          wrong_stream_datagrams = add_u64 s.counters.wrong_stream_datagrams 1;
        };
      },
    )
    else dispatch parsed.header.type s datagram parsed t result

-- `++counters_.datagrams_received`
abbrev pub count_datagram : ReceiverSession → ReceiverSession
count_datagram s = record s {
  counters = record (s.counters) { datagrams_received = add_u64 s.counters.datagrams_received 1 };
}

unfoldable pub accept_datagram :
    ReceiverSession → List ℕ → ℕ → ReceiverSessionResult × ReceiverSession
accept_datagram s datagram arrival_time_ms =
    let (result, observed) = observe_time s arrival_time_ms in
    if not (is_none result.error)
    then (result, observed)
    else receive (count_datagram observed) datagram (parse_datagram datagram) arrival_time_ms result
