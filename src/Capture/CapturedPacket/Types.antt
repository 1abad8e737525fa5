-- ===== src/Capture/CapturedPacket/Types.antt =====
-- captured_packet.hpp: the limits, the packet and the result of its conversion.
use wiretone.Prelude.{ℕ, ◌*◌, List, String}

abbrev pub normalized_sample_rate : ℕ
normalized_sample_rate = 48_000

abbrev pub normalized_channel_count : ℕ
normalized_channel_count = 2

abbrev pub normalized_bytes_per_sample : ℕ
normalized_bytes_per_sample = 2

abbrev pub normalized_bytes_per_frame : ℕ
normalized_bytes_per_frame = normalized_channel_count * normalized_bytes_per_sample

abbrev pub float32_stereo_bytes_per_frame : ℕ
float32_stereo_bytes_per_frame = 8

abbrev pub captured_packet_flag_silence : ℕ
captured_packet_flag_silence = 1

abbrev pub captured_packet_flag_discontinuity : ℕ
captured_packet_flag_discontinuity = 2

abbrev pub captured_packet_flag_timestamp_error : ℕ
captured_packet_flag_timestamp_error = 4

-- `~captured_packet_known_flag_mask` on `std::uint32_t`
abbrev pub captured_packet_unknown_flag_mask : ℕ
captured_packet_unknown_flag_mask = 0xffff_fff8

pub record CapturedPacketView : Type 0 where
  pub bytes : List ℕ  -- `data`
  pub frame_count : ℕ  -- uint32
  pub flags : ℕ  -- uint32
  pub device_position_frames : ℕ  -- uint64
  pub qpc_position_100ns : ℕ  -- uint64

pub data CapturedPacketError : Type 0 where
  none zero_frame_count unknown_flags output_too_small data_missing : CapturedPacketError
  invalid_data_size non_finite_sample : CapturedPacketError

pub record CapturedPacketConversionResult : Type 0 where
  pub error : CapturedPacketError
  pub output_size : ℕ
  pub frame_count : ℕ  -- uint32
  pub flags : ℕ  -- uint32
  pub device_position_frames : ℕ  -- uint64
  pub qpc_position_100ns : ℕ  -- uint64

abbrev pub normalized_pcm_size_for_frames : ℕ → ℕ
normalized_pcm_size_for_frames frame_count = frame_count * normalized_bytes_per_frame

abbrev pub error_to_string : CapturedPacketError → String
error_to_string CapturedPacketError.none = "none"
error_to_string CapturedPacketError.zero_frame_count = "zero_frame_count"
error_to_string CapturedPacketError.unknown_flags = "unknown_flags"
error_to_string CapturedPacketError.output_too_small = "output_too_small"
error_to_string CapturedPacketError.data_missing = "data_missing"
error_to_string CapturedPacketError.invalid_data_size = "invalid_data_size"
error_to_string CapturedPacketError.non_finite_sample = "non_finite_sample"
