-- ===== src/Protocol/Control/Types.antt =====
-- native/protocol/include/wiretone/protocol/control_payload.hpp: the payloads of the packets that
-- are not audio, and the errors.
use wiretone.Prelude.{ℕ, Bool, true, false, List, ◌==◌, if◌then◌else◌}

abbrev pub error_message_maximum_size : ℕ
error_message_maximum_size = 256

abbrev pub supported_channel_count : ℕ
supported_channel_count = 2

abbrev pub supported_frame_duration_ms : ℕ
supported_frame_duration_ms = 20

abbrev pub supported_sample_rate : ℕ
supported_sample_rate = 48_000

-- An enumeration over `std::uint8_t`; `unlisted` is a byte that no enumerator names.
pub data Codec : Type 0 where
  pcm_s16le opus : Codec
  unlisted : ℕ → Codec

-- `static_cast<std::uint8_t>(codec)`
abbrev pub codec_value : Codec → ℕ
codec_value Codec.pcm_s16le = 1
codec_value Codec.opus = 2
codec_value (Codec.unlisted value) = value

-- `static_cast<Codec>(value)`
abbrev pub codec_of : ℕ → Codec
codec_of value =
    if value == 1 then Codec.pcm_s16le else if value == 2 then Codec.opus else Codec.unlisted value

pub data ControlPayloadError : Type 0 where
  none output_too_small invalid_payload_size unsupported_codec : ControlPayloadError
  unsupported_channel_count unsupported_frame_duration : ControlPayloadError
  unsupported_sample_rate invalid_pcm_target_bitrate invalid_pcm_pre_skip : ControlPayloadError
  invalid_opus_target_bitrate reserved_field_nonzero error_message_too_large : ControlPayloadError
  invalid_utf8 : ControlPayloadError

-- `error == ControlPayloadError::none`
abbrev pub is_none : ControlPayloadError → Bool
is_none ControlPayloadError.none = true
is_none _ = false

pub record ControlParseResult (Value : Type 0) : Type 0 where
  pub error : ControlPayloadError
  pub value : Value

pub record StreamStartPayload : Type 0 where
  pub codec : Codec
  pub channels : ℕ  -- uint8
  pub frame_duration_ms : ℕ  -- uint16
  pub sample_rate : ℕ  -- uint32
  pub target_bitrate : ℕ  -- uint32
  pub pre_skip_samples : ℕ  -- uint16

-- `StreamStartPayload{}`
abbrev pub default_stream_start : StreamStartPayload
default_stream_start = record {
  codec = Codec.pcm_s16le;
  channels = supported_channel_count;
  frame_duration_ms = supported_frame_duration_ms;
  sample_rate = supported_sample_rate;
  target_bitrate = 0;
  pre_skip_samples = 0;
}

pub record StreamStopPayload : Type 0 where
  pub reason : ℕ  -- uint8

pub record HeartbeatPayload : Type 0 where
  pub sender_monotonic_time_us : ℕ  -- uint64

pub record ReceiverReportPayload : Type 0 where
  pub highest_sequence_number_received : ℕ  -- uint32
  pub cumulative_missing_datagrams : ℕ  -- uint32
  pub cumulative_late_datagrams : ℕ  -- uint32
  pub estimated_network_jitter_us : ℕ  -- uint32
  pub buffered_audio_ms : ℕ  -- uint16
  pub cumulative_playback_underruns : ℕ  -- uint16

pub record ErrorPayloadView : Type 0 where
  pub code : ℕ  -- uint16
  pub message : List ℕ
