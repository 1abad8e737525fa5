-- ===== src/Protocol/Audio/Fragment.antt =====
-- audio_frame.cpp: `fragment_audio_frame`, the sender's half.
use wiretone.Prelude.{
  ℕ, zero, suc, ◌+◌, ◌-◌, ◌*◌, ◌/◌, ◌%◌, ◌^◌, min, ◌&&◌, not, List, ltb, ◌==◌, ◌!=◌, if◌then◌else◌,
  has_flag, length, take, drop, set, replicate, copy_into,
}
use wiretone.Protocol.Packet.{
  PacketType, PacketHeader, ProtocolError, protocol_version, packet_header_size,
  maximum_payload_size, flag_silence, unknown_flag_mask, encode_header,
}
use wiretone.Protocol.Packet
use wiretone.Protocol.Audio.Types.{
  maximum_audio_frame_payload_size, maximum_audio_fragment_count, AudioFrameView,
  EncodedAudioDatagram, empty_datagram, AudioFrameError, is_none, AudioFragmentationResult,
}

unfoldable pub validate_frame_view : AudioFrameView → AudioFrameError
validate_frame_view frame =
    if frame.stream_id == 0
    then AudioFrameError.zero_stream_id
    else if frame.frame_id == 0
    then AudioFrameError.zero_frame_id
    else if has_flag frame.flags unknown_flag_mask
    then AudioFrameError.unknown_flags
    else if ltb maximum_audio_frame_payload_size (length frame.payload)
    then AudioFrameError.payload_too_large
    else if has_flag frame.flags flag_silence && length frame.payload != 0
    then AudioFrameError.silence_payload_present
    else if not (has_flag frame.flags flag_silence) && length frame.payload == 0
    then AudioFrameError.empty_payload_without_silence
    else AudioFrameError.none

unfoldable pub fragment_count : AudioFrameView → ℕ
fragment_count frame =
    if has_flag frame.flags flag_silence
    then 1
    else (length frame.payload + maximum_payload_size - 1) / maximum_payload_size

-- The size of the fragment at an index; `payload_offset` is `index * maximum_payload_size`, which
-- is not behind the end for an index below the count.
unfoldable pub fragment_payload_size : AudioFrameView → ℕ → ℕ
fragment_payload_size frame index =
    if has_flag frame.flags flag_silence
    then 0
    else min (length frame.payload - index * maximum_payload_size) maximum_payload_size

unfoldable pub fragment_header : AudioFrameView → ℕ → PacketHeader
fragment_header frame index = record {
  version = protocol_version;
  type = PacketType.audio;
  flags = frame.flags;
  stream_id = frame.stream_id;
  sequence_number = (frame.first_sequence_number + index) % 2 ^ 32;
  timestamp_samples = frame.timestamp_samples;
  payload_size = fragment_payload_size frame index % 2 ^ 16;
  fragment_index = index % 2 ^ 8;
  fragment_count = fragment_count frame % 2 ^ 8;
  frame_id = frame.frame_id;
}

-- The bytes of the frame that the fragment at an index carries.
unfoldable pub fragment_payload : AudioFrameView → ℕ → List ℕ
fragment_payload frame index =
    take (fragment_payload_size frame index) (drop (index * maximum_payload_size) frame.payload)

-- The datagram of an index once its header is written.
unfoldable pub fragment_datagram : AudioFrameView → ℕ → List ℕ → EncodedAudioDatagram
fragment_datagram frame index storage = record {
  storage =
      if fragment_payload_size frame index != 0
      then copy_into storage packet_header_size (fragment_payload frame index)
      else storage;
  size = packet_header_size + fragment_payload_size frame index;
}

-- The loop, by the rounds left.
unfoldable pub fragment_from :
    ℕ → ℕ → AudioFrameView → AudioFragmentationResult → AudioFragmentationResult
unfolding empty_datagram
fragment_from zero index frame result = record result {
  next_sequence_number = (frame.first_sequence_number + fragment_count frame) % 2 ^ 32;
}
fragment_from (suc left) index frame result =
    let (error, storage) = encode_header (fragment_header frame index) empty_datagram.storage in
    let rest = fragment_from left (index + 1) frame (record result {
      datagrams = set result.datagrams index (fragment_datagram frame index storage);
    }) in
    if Packet.is_none error then rest else record result {
      error = AudioFrameError.header_encoding_failed;
      protocol_error = error;
      datagrams = set result.datagrams index (record { storage = storage; size = 0 });
      datagram_count = 0;
    }

unfoldable pub fragment_audio_frame : AudioFrameView → AudioFragmentationResult
unfolding fragment_from empty_datagram
fragment_audio_frame frame =
    if not (is_none (validate_frame_view frame))
    then record start { error = validate_frame_view frame }
    else fragment_from (fragment_count frame) 0 frame
        (record start { datagram_count = fragment_count frame })
  where
    start : AudioFragmentationResult
    start = record {
      error = AudioFrameError.none;
      protocol_error = ProtocolError.none;
      datagrams = replicate maximum_audio_fragment_count empty_datagram;
      datagram_count = 0;
      next_sequence_number = frame.first_sequence_number;
    }
