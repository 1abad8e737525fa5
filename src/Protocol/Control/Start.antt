-- ===== src/Protocol/Control/Start.antt =====
-- control_payload.cpp: the payload of `stream_start`. An encoder returns its error and the output
-- span after the call.
use wiretone.Prelude.{
  ℕ, Bool, true, false, ◌||◌, not, List, ltb, ◌==◌, ◌!=◌, if◌then◌else◌, length, get_or, set,
  fill_n,
}
use wiretone.Protocol.Bytes.{write_u16, write_u32, read_u16, read_u32}
use wiretone.Protocol.Packet.{stream_start_payload_size}
use wiretone.Protocol.Control.Types.{
  Codec, codec_value, codec_of, ControlPayloadError, is_none, ControlParseResult,
  StreamStartPayload, default_stream_start, supported_channel_count, supported_frame_duration_ms,
  supported_sample_rate,
}

unfoldable pub is_known_codec : ℕ → Bool
is_known_codec value = value == 1 || value == 2

abbrev pub is_pcm : Codec → Bool
is_pcm Codec.pcm_s16le = true
is_pcm _ = false

unfoldable pub validate_stream_start : StreamStartPayload → ControlPayloadError
unfolding is_known_codec
validate_stream_start p =
    if not (is_known_codec (codec_value p.codec))
    then ControlPayloadError.unsupported_codec
    else if p.channels != supported_channel_count
    then ControlPayloadError.unsupported_channel_count
    else if p.frame_duration_ms != supported_frame_duration_ms
    then ControlPayloadError.unsupported_frame_duration
    else if p.sample_rate != supported_sample_rate
    then ControlPayloadError.unsupported_sample_rate
    else if is_pcm p.codec
    then (if p.target_bitrate != 0
        then ControlPayloadError.invalid_pcm_target_bitrate
        else if p.pre_skip_samples != 0
        then ControlPayloadError.invalid_pcm_pre_skip
        else ControlPayloadError.none)
    else if p.target_bitrate == 0
    then ControlPayloadError.invalid_opus_target_bitrate
    else ControlPayloadError.none

-- The writes of `encode_stream_start` after its two guards.
unfoldable pub write_stream_start : StreamStartPayload → List ℕ → List ℕ
unfolding write_u16 write_u32
write_stream_start p output =
    let output = fill_n output stream_start_payload_size 0 in
    let output = set output 0 (codec_value p.codec) in
    let output = set output 1 p.channels in
    let output = write_u16 output 2 p.frame_duration_ms in
    let output = write_u32 output 4 p.sample_rate in
    let output = write_u32 output 8 p.target_bitrate in
    let output = write_u16 output 12 p.pre_skip_samples in write_u16 output 14 0

unfoldable pub encode_stream_start : StreamStartPayload → List ℕ → ControlPayloadError × List ℕ
encode_stream_start p output =
    if ltb (length output) stream_start_payload_size
    then (ControlPayloadError.output_too_small, output)
    else if not (is_none (validate_stream_start p))
    then (validate_stream_start p, output)
    else (ControlPayloadError.none, write_stream_start p output)

unfoldable pub read_stream_start : List ℕ → StreamStartPayload
unfolding read_u16 read_u32
read_stream_start payload = record {
  codec = codec_of (get_or payload 0 0);
  channels = get_or payload 1 0;
  frame_duration_ms = read_u16 payload 2;
  sample_rate = read_u32 payload 4;
  target_bitrate = read_u32 payload 8;
  pre_skip_samples = read_u16 payload 12;
}

unfoldable pub parse_stream_start : List ℕ → ControlParseResult StreamStartPayload
unfolding is_known_codec read_u16
parse_stream_start payload =
    if length payload != stream_start_payload_size
    then failed ControlPayloadError.invalid_payload_size
    else if not (is_known_codec (get_or payload 0 0))
    then failed ControlPayloadError.unsupported_codec
    else if read_u16 payload 14 != 0
    then failed ControlPayloadError.reserved_field_nonzero
    else record {
      error = validate_stream_start (read_stream_start payload);
      value = read_stream_start payload;
    }
  where
    failed : ControlPayloadError → ControlParseResult StreamStartPayload
    failed e = record { error = e; value = default_stream_start }
