-- ===== src/Sender/Wasapi/Types.antt =====
-- wasapi_loopback_capture.hpp and wasapi_loopback_capture.cpp: the capture's fields and errors.
use wiretone.Prelude.{ℕ, Bool, true, false, ◌&&◌, List, Option, String, ◌==◌, if◌then◌else◌}
use wiretone.Capture.Lifecycle.{CaptureState}
use wiretone.Capture.Recovery.{CaptureRecoveryController}
use wiretone.Capture.CapturedPacket.Types.{
  normalized_sample_rate, normalized_channel_count, float32_stereo_bytes_per_frame,
  CapturedPacketError,
}
use wiretone.Capture.Assembler.Types.{PcmFrameAssemblerError, PcmFrameAssembler}
use wiretone.Sender.Wasapi.Platform.{FormatTag, SubFormat, WaveFormat, Platform}

pub data WasapiSampleKind : Type 0 where
  unknown integer_pcm floating_point : WasapiSampleKind

pub record WasapiMixFormat : Type 0 where
  pub sample_rate : ℕ  -- uint32
  pub channel_count : ℕ  -- uint16, as the next two
  pub container_bits_per_sample : ℕ
  pub valid_bits_per_sample : ℕ
  pub channel_mask : ℕ  -- uint32
  pub sample_kind : WasapiSampleKind
  pub extensible : Bool

-- `WasapiMixFormat{}`
abbrev pub no_format : WasapiMixFormat
no_format = record {
  sample_rate = 0;
  channel_count = 0;
  container_bits_per_sample = 0;
  valid_bits_per_sample = 0;
  channel_mask = 0;
  sample_kind = WasapiSampleKind.unknown;
  extensible = false;
}

pub data WasapiCaptureError : Type 0 where
  none invalid_state com_initialization_failed device_enumerator_creation_failed :
      WasapiCaptureError
  endpoint_notification_client_creation_failed endpoint_notification_registration_failed :
      WasapiCaptureError
  default_render_endpoint_failed endpoint_id_failed endpoint_property_store_failed :
      WasapiCaptureError
  endpoint_name_failed audio_client_activation_failed mix_format_failed : WasapiCaptureError
  loopback_initialization_failed capture_service_failed buffer_size_failed : WasapiCaptureError
  unsupported_mix_format stream_start_failed stream_stop_failed next_packet_size_failed :
      WasapiCaptureError
  capture_buffer_failed capture_buffer_release_failed packet_size_mismatch : WasapiCaptureError
  packet_frame_count_exceeds_buffer unsupported_buffer_flags packet_conversion_failed :
      WasapiCaptureError
  frame_assembly_failed device_invalidated recovery_restart_failed : WasapiCaptureError
  recovery_unsupported_mix_format : WasapiCaptureError

abbrev pub tag_kind : FormatTag → WasapiSampleKind
tag_kind FormatTag.pcm = WasapiSampleKind.integer_pcm
tag_kind FormatTag.ieee_float = WasapiSampleKind.floating_point
tag_kind _ = WasapiSampleKind.unknown

abbrev pub sub_format_kind : SubFormat → WasapiSampleKind
sub_format_kind SubFormat.pcm = WasapiSampleKind.integer_pcm
sub_format_kind SubFormat.ieee_float = WasapiSampleKind.floating_point
sub_format_kind SubFormat.other = WasapiSampleKind.unknown

abbrev pub is_extensible : FormatTag → Bool
is_extensible FormatTag.extensible = true
is_extensible _ = false

unfoldable pub inspect_mix_format : WaveFormat → WasapiMixFormat
inspect_mix_format format =
    if is_extensible format.format_tag && format.is_extended
    then record plain {
      extensible = true;
      valid_bits_per_sample = format.valid_bits_per_sample;
      channel_mask = format.channel_mask;
      sample_kind = sub_format_kind format.sub_format;
    }
    else plain
  where
    plain : WasapiMixFormat
    plain = record {
      sample_rate = format.samples_per_sec;
      channel_count = format.channels;
      container_bits_per_sample = format.bits_per_sample;
      valid_bits_per_sample = format.bits_per_sample;
      channel_mask = 0;
      sample_kind = tag_kind format.format_tag;
      extensible = false;
    }

abbrev pub is_floating_point : WasapiSampleKind → Bool
is_floating_point WasapiSampleKind.floating_point = true
is_floating_point _ = false

unfoldable pub supports_phase_2_2_normalization : WasapiMixFormat → WaveFormat → Bool
supports_phase_2_2_normalization format native_format =
    format.sample_rate == normalized_sample_rate
    && format.channel_count == normalized_channel_count
    && format.container_bits_per_sample == 32
    && format.valid_bits_per_sample == 32
    && is_floating_point format.sample_kind
    && native_format.block_align == float32_stereo_bytes_per_frame

-- What has been counted of a run.
pub record Counters : Type 0 where
  pub packets_drained : ℕ  -- uint64, as all below
  pub frames_drained : ℕ
  pub pcm_bytes_produced : ℕ
  pub silent_packets : ℕ
  pub discontinuity_packets : ℕ
  pub timestamp_error_packets : ℕ
  pub empty_poll_count : ℕ
  pub last_device_position_frames : ℕ
  pub last_qpc_position_100ns : ℕ
  pub completed_pcm_frames : ℕ
  pub silent_pcm_frames : ℕ
  pub discontinuity_pcm_frames : ℕ
  pub timestamp_error_pcm_frames : ℕ
  pub dropped_partial_pcm_frames : ℕ
  pub last_completed_pcm_sequence : ℕ
  pub last_completed_device_position_frames : ℕ
  pub last_completed_qpc_position_100ns : ℕ
  pub recovery_discontinuity_pcm_frames : ℕ

abbrev pub no_counters : Counters
no_counters = record {
  packets_drained = 0;
  frames_drained = 0;
  pcm_bytes_produced = 0;
  silent_packets = 0;
  discontinuity_packets = 0;
  timestamp_error_packets = 0;
  empty_poll_count = 0;
  last_device_position_frames = 0;
  last_qpc_position_100ns = 0;
  completed_pcm_frames = 0;
  silent_pcm_frames = 0;
  discontinuity_pcm_frames = 0;
  timestamp_error_pcm_frames = 0;
  dropped_partial_pcm_frames = 0;
  last_completed_pcm_sequence = 0;
  last_completed_device_position_frames = 0;
  last_completed_qpc_position_100ns = 0;
  recovery_discontinuity_pcm_frames = 0;
}

-- `WasapiLoopbackCapture::Impl`; of a COM pointer, whether it is set. The state of the platform
-- goes with it.
pub record Impl (platform : Platform) : Type 0 where
  pub lifecycle : CaptureState
  pub recovery : CaptureRecoveryController
  pub error : WasapiCaptureError
  pub conversion_error : CapturedPacketError
  pub frame_assembler_error : PcmFrameAssemblerError
  pub native_result : platform.HResult
  pub com_initialized : Bool
  pub notification_registered : Bool
  pub audio_started : Bool
  pub normalization_supported : Bool
  pub recovery_frame_pending : Bool
  pub pending_recovery_flags : ℕ  -- uint32
  pub device_enumerator : Bool
  pub notification_client : Bool
  pub endpoint : Bool
  pub audio_client : Bool
  pub capture_client : Bool
  pub mix_format : Option WaveFormat
  pub endpoint_name : String
  pub endpoint_id : String
  pub inspected_mix_format : WasapiMixFormat
  pub endpoint_buffer_frames : ℕ  -- uint32
  pub normalized_pcm_scratch : List ℕ  -- bytes
  pub frame_assembler : PcmFrameAssembler
  pub counters : Counters
  pub world : platform.World

-- `to_string` of a sample kind.
abbrev pub sample_kind_to_string : WasapiSampleKind → String
sample_kind_to_string WasapiSampleKind.unknown = "unknown"
sample_kind_to_string WasapiSampleKind.integer_pcm = "integer_pcm"
sample_kind_to_string WasapiSampleKind.floating_point = "floating_point"
