-- ===== src/Protocol/Session/Tests.antt =====
-- A session that has streamed for a while, its queue full and wrapped round the array's end.
use wiretone.Prelude.{
  ℕ, ◌+◌, ◌≤◌, ◌≡◌, ◌≢◌, refl, true, false, List, [], ◌∷◌, ◌++◌, arith, length, leb, if◌then◌else◌,
}
use wiretone.Protocol.Packet.{PacketType, parse_datagram, validate_header, read_header}
use wiretone.Protocol.Packet.Layout.{header_bytes}
use wiretone.Protocol.Control.Types.{default_stream_start}
use wiretone.Protocol.Control.Start.{
  is_known_codec, validate_stream_start, parse_stream_start, read_stream_start,
}
use wiretone.Protocol.Audio.Types.{ReassembledAudioFrame, empty_frame, empty_storage}
use wiretone.Protocol.Audio.Reassembler
use wiretone.Protocol.Audio.Slot
use wiretone.Protocol.Session.Types.{
  ReceiverSessionState, ReceiverSessionEvent, ReceiverSessionError, ReceiverSession, zero_counters,
  new,
}
use wiretone.Protocol.Session.Handlers.{
  advance_time, enqueue_frame, pop_frame, observe_time, observe_expiry, check_liveness,
  handle_stream_start, clear_stream_state,
}
use wiretone.Protocol.Session.Receive.{
  accept_datagram, receive, dispatch, handle_audio, handle_reassembled,
}
use wiretone.Protocol.Session.Invariant.{IsValid, is_past}
use wiretone.Protocol.Session.Queue.{
  queued_frames, push_bounded, pop_first, pop_frame-queued_frames, enqueue_frame-queued_frames,
}
use wiretone.Protocol.Session.Ownership.{OwnsFrames}
use wiretone.Protocol.Session.Runs.{Calls, Calls-IsValid, Calls-OwnsFrames}
use wiretone.Protocol.Session.Responses.{advance_time-answers, advance_time-timeout}
use wiretone.Protocol.Session.Refused.{HasSameStream, accept_datagram-refused}

abbrev numbered : ℕ → ReassembledAudioFrame
numbered n = record empty_frame { stream_id = 7; frame_id = n }

abbrev streaming : ReceiverSession
streaming = record {
  state = ReceiverSessionState.streaming;
  active_stream_id = 7;
  active_format = default_stream_start;
  reassembler = Reassembler.reset;
  frame_queue =
      numbered 6
      ∷ numbered 7
      ∷ numbered 8
      ∷ numbered 1
      ∷ numbered 2
      ∷ numbered 3
      ∷ numbered 4
      ∷ numbered 5
      ∷ [];
  queue_head = 3;
  queue_size = 8;
  has_observed_time = true;
  last_observed_time_ms = 1_000;
  last_liveness_time_ms = 900;
  last_sender_monotonic_time_us = 5;
  counters = zero_counters;
}

streaming-IsValid : IsValid streaming
unfolding validate_stream_start is_known_codec Reassembler.reset
streaming-IsValid = ground arith

pop_frame-queued_frames_example :
    ((pop_frame streaming).0, queued_frames (pop_frame streaming).1)
    ≡ pop_first (queued_frames streaming)
pop_frame-queued_frames_example = pop_frame-queued_frames streaming streaming-IsValid

enqueue_frame-queued_frames_example :
    queued_frames (enqueue_frame streaming (numbered 9))
    ≡ push_bounded (queued_frames streaming) (numbered 9)
enqueue_frame-queued_frames_example =
    enqueue_frame-queued_frames streaming (numbered 9) streaming-IsValid

advance_time-answers_example :
    ((advance_time streaming 999).0.error ≡ (
      if is_past streaming 999
      then ReceiverSessionError.non_monotonic_time
      else ReceiverSessionError.none))
    × ((advance_time streaming 999).1.last_observed_time_ms
        ≡ (if is_past streaming 999 then 1_000 else 999))
advance_time-answers_example = advance_time-answers streaming 999 (omega arith) streaming-IsValid

advance_time-timeout_example :
    ((advance_time streaming 3_900).1.state ≡ (
      if leb (900 + 3_000) 3_900
      then ReceiverSessionState.idle
      else ReceiverSessionState.streaming))
    × ((advance_time streaming 3_900).0.event ≡ (
        if leb (900 + 3_000) 3_900
        then ReceiverSessionEvent.session_timed_out
        else ReceiverSessionEvent.none))
advance_time-timeout_example =
    advance_time-timeout streaming 3_900 (omega arith) streaming-IsValid refl refl

-- A stream is started, and the second of two fragments comes, and comes again.
abbrev start_datagram : List ℕ
start_datagram =
    header_bytes (record {
      version = 1;
      type = PacketType.stream_start;
      flags = 0;
      stream_id = 7;
      sequence_number = 1;
      timestamp_samples = 0;
      payload_size = 16;
      fragment_index = 0;
      fragment_count = 1;
      frame_id = 0;
    })
    ++ (1 ∷ 2 ∷ 0 ∷ 20 ∷ 0 ∷ 0 ∷ 187 ∷ 128 ∷ 0 ∷ 0 ∷ 0 ∷ 0 ∷ 0 ∷ 0 ∷ 0 ∷ 0 ∷ [])

abbrev second_fragment : List ℕ
second_fragment =
    header_bytes (record {
      version = 1;
      type = PacketType.audio;
      flags = 0;
      stream_id = 7;
      sequence_number = 3;
      timestamp_samples = 0;
      payload_size = 1;
      fragment_index = 1;
      fragment_count = 2;
      frame_id = 1;
    })
    ++ (9 ∷ [])

abbrev started : ReceiverSession
started = (accept_datagram new start_datagram 1_000).1

abbrev in_flight : ReceiverSession
in_flight = (accept_datagram started second_fragment 1_100).1

in_flight-Calls : Calls new in_flight
in_flight-Calls =
    Calls.accepted new started second_fragment 1_100 (omega arith)
      (Calls.accepted new new start_datagram 1_000 (omega arith) (Calls.done new))

duplicate :
    ((accept_datagram in_flight second_fragment 1_200).0.error
      ≡ ReceiverSessionError.audio_reassembly_failed)
    × (is_past in_flight 1_200 ≡ false)
unfolding accept_datagram receive observe_time observe_expiry check_liveness parse_datagram
    Reassembler.expire_incomplete Reassembler.advance_time Reassembler.reset new validate_header
    read_header handle_stream_start parse_stream_start validate_stream_start read_stream_start
    clear_stream_state dispatch handle_audio handle_reassembled Reassembler.accept_datagram
    Reassembler.accept_parsed Reassembler.validate_fragment_shape Reassembler.accept_fragment
    Reassembler.accept_in Slot.find_slot Slot.claim_slot Slot.empty_slot Slot.expire_slots
    Slot.expired_count Slot.first_sequence_number_of Slot.insert_fragment Slot.is_expired
    Slot.is_inconsistent Slot.is_slot_of Slot.store_fragment empty_storage
duplicate = (refl, refl)

duplicate-refused :
    (accept_datagram in_flight second_fragment 1_200).0.error ≢ ReceiverSessionError.none
duplicate-refused e = ground (arith, duplicate.0, e)

accept_datagram-refused_example :
    HasSameStream
      (advance_time in_flight 1_200).1
      (accept_datagram in_flight second_fragment 1_200).1
accept_datagram-refused_example =
    accept_datagram-refused in_flight second_fragment 1_200 (omega arith) in_flight-Calls
      duplicate.1 duplicate-refused

-- A new session after an empty datagram, some time and a pop.
abbrev after_calls : ReceiverSession
after_calls = (pop_frame (advance_time (accept_datagram new [] 10).1 20).1).1

calls : Calls new after_calls
calls = Calls.popped new _ (
    Calls.advanced new _ 20 (omega arith)
      (Calls.accepted new _ [] 10 (omega arith) (Calls.done new)))

Calls-IsValid_example : IsValid after_calls
Calls-IsValid_example = Calls-IsValid after_calls calls

Calls-OwnsFrames_example : OwnsFrames after_calls × (length (queued_frames after_calls) ≤ 8)
Calls-OwnsFrames_example = Calls-OwnsFrames after_calls calls
