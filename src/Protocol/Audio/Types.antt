-- ===== src/Protocol/Audio/Types.antt =====
-- audio_frame.hpp: the limits, the frames on both sides of the wire, the errors.
use wiretone.Prelude.{ℕ, ◌+◌, ◌-◌, ◌/◌, Bool, true, false, List, take, replicate}
use wiretone.Protocol.Packet.{ProtocolError, maximum_payload_size, maximum_datagram_size}

abbrev pub maximum_audio_frame_payload_size : ℕ
maximum_audio_frame_payload_size = 3_840

abbrev pub maximum_audio_fragment_count : ℕ
maximum_audio_fragment_count =
    (maximum_audio_frame_payload_size + maximum_payload_size - 1) / maximum_payload_size

abbrev pub maximum_in_flight_audio_frames : ℕ
maximum_in_flight_audio_frames = 8

abbrev pub audio_frame_reassembly_timeout_ms : ℕ
audio_frame_reassembly_timeout_ms = 250

pub record AudioFrameView : Type 0 where
  pub stream_id : ℕ  -- uint32
  pub first_sequence_number : ℕ  -- uint32
  pub timestamp_samples : ℕ  -- uint64
  pub frame_id : ℕ  -- uint32
  pub flags : ℕ  -- uint16
  pub payload : List ℕ

pub record EncodedAudioDatagram : Type 0 where
  pub storage : List ℕ
  pub size : ℕ

-- `EncodedAudioDatagram::bytes`
unfoldable pub bytes : EncodedAudioDatagram → List ℕ
bytes d = take d.size d.storage

-- `EncodedAudioDatagram{}`
unfoldable pub empty_datagram : EncodedAudioDatagram
empty_datagram = record { storage = replicate maximum_datagram_size 0; size = 0 }

pub data AudioFrameError : Type 0 where
  none zero_stream_id zero_frame_id unknown_flags payload_too_large : AudioFrameError
  empty_payload_without_silence silence_payload_present header_encoding_failed : AudioFrameError
  malformed_datagram not_audio_packet fragment_count_exceeds_limit : AudioFrameError
  noncanonical_fragment_size duplicate_fragment inconsistent_fragment_metadata : AudioFrameError
  reassembly_window_full non_monotonic_time : AudioFrameError

-- `error == AudioFrameError::none`
abbrev pub is_none : AudioFrameError → Bool
is_none AudioFrameError.none = true
is_none _ = false

pub record AudioFragmentationResult : Type 0 where
  pub error : AudioFrameError
  pub protocol_error : ProtocolError
  pub datagrams : List EncodedAudioDatagram
  pub datagram_count : ℕ
  pub next_sequence_number : ℕ

-- The zeros of a `std::array<std::byte, maximum_audio_frame_payload_size>`.
unfoldable pub empty_storage : List ℕ
empty_storage = replicate maximum_audio_frame_payload_size 0

pub record ReassembledAudioFrame : Type 0 where
  pub stream_id : ℕ  -- uint32
  pub first_sequence_number : ℕ  -- uint32
  pub timestamp_samples : ℕ  -- uint64
  pub frame_id : ℕ  -- uint32
  pub flags : ℕ  -- uint16
  pub storage : List ℕ
  pub payload_size : ℕ

-- `ReassembledAudioFrame{}`
abbrev pub empty_frame : ReassembledAudioFrame
empty_frame = record {
  stream_id = 0;
  first_sequence_number = 0;
  timestamp_samples = 0;
  frame_id = 0;
  flags = 0;
  storage = empty_storage;
  payload_size = 0;
}

-- `ReassembledAudioFrame::payload`
unfoldable pub frame_payload : ReassembledAudioFrame → List ℕ
frame_payload f = take f.payload_size f.storage

pub record AudioReassemblyResult : Type 0 where
  pub error : AudioFrameError
  pub protocol_error : ProtocolError
  pub expired_frame_count : ℕ
  pub frame_completed : Bool
  pub frame : ReassembledAudioFrame

-- `AudioReassemblyResult{}`
abbrev pub empty_result : AudioReassemblyResult
empty_result = record {
  error = AudioFrameError.none;
  protocol_error = ProtocolError.none;
  expired_frame_count = 0;
  frame_completed = false;
  frame = empty_frame;
}
