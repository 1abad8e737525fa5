-- ===== src/Sender/Wasapi/Tests.antt =====
-- A capture that has lost its device, on a platform whose calls all succeed.
use wiretone.Prelude.{ℕ, ◌+◌, ◌≡◌, true, false, [], Option, leb, ◌==◌, arith}
use wiretone.Capture.Lifecycle.{CaptureState}
use wiretone.Capture.Recovery as Recovery
use wiretone.Capture.CapturedPacket.Types.{CapturedPacketError}
use wiretone.Capture.Assembler.Types.{PcmFrameAssemblerError}
use wiretone.Capture.Assembler.Types as Assembler
use wiretone.Sender.Wasapi.Platform.{FormatTag, SubFormat, WaveFormat, Platform}
use wiretone.Sender.Wasapi.Types.{no_format, WasapiCaptureError, no_counters, Impl}
use wiretone.Sender.Wasapi.Recover.{recover_within, recover_if_requested}
use wiretone.Sender.Wasapi.Answers.{Answers, reset-IsAccounted}
use wiretone.Sender.Wasapi.Recovered.{Outcome, recover_if_requested-Outcome}

abbrev float_stereo : WaveFormat
float_stereo = record {
  format_tag = FormatTag.ieee_float;
  channels = 2;
  samples_per_sec = 48_000;
  bits_per_sample = 32;
  block_align = 8;
  is_extended = false;
  valid_bits_per_sample = 0;
  channel_mask = 0;
  sub_format = SubFormat.other;
}

-- 0 is a success, 5 and 6 name a lost device; the world counts the starts.
abbrev steady : Platform
steady = record {
  HResult = ℕ;
  failed = λ r. leb 1 r;
  is_device_invalidated = λ r. r == 5;
  is_resources_invalidated = λ r. r == 6;
  s_ok = 0;
  e_unexpected = 1;
  e_invalidarg = 2;
  e_fail = 3;
  e_outofmemory = 7;
  e_pointer = 4;
  World = ℕ;
  co_initialize = λ w. (0, w);
  create_enumerator = λ w. (0, w);
  new_notification_client = λ w. (true, w);
  register_notifications = λ w. (0, w);
  get_default_audio_endpoint = λ w. (0, w);
  get_id = λ w. (0, "id", w);
  open_property_store = λ w. (0, w);
  get_friendly_name = λ w. (0, Option.some "speakers", w);
  activate = λ w. (0, w);
  get_mix_format = λ w. (0, Option.some float_stereo, w);
  initialize_client = λ w. (0, w);
  get_service = λ w. (0, w);
  get_buffer_size = λ w. (0, 2, w);
  start_client = λ w. (0, w + 1);
  stop_client = λ w. (0, w);
}

-- The device has been lost.
abbrev lost : Impl steady
lost = record {
  lifecycle = CaptureState.running;
  recovery = Recovery.reset;
  error = WasapiCaptureError.none;
  conversion_error = CapturedPacketError.none;
  frame_assembler_error = PcmFrameAssemblerError.none;
  native_result = 0;
  com_initialized = true;
  notification_registered = true;
  audio_started = true;
  normalization_supported = true;
  recovery_frame_pending = false;
  pending_recovery_flags = 1;
  device_enumerator = true;
  notification_client = true;
  endpoint = true;
  audio_client = true;
  capture_client = true;
  mix_format = Option.some float_stereo;
  endpoint_name = "speakers";
  endpoint_id = "id";
  inspected_mix_format = no_format;
  endpoint_buffer_frames = 2;
  normalized_pcm_scratch = [];
  frame_assembler = Assembler.new;
  counters = no_counters;
  world = 0;
}

recover_if_requested-Outcome_example :
    Outcome steady (recover_if_requested steady lost)
    × (recover_within steady 5 lost ≡ recover_if_requested steady lost)
recover_if_requested-Outcome_example =
    recover_if_requested-Outcome steady 5 lost reset-IsAccounted (omega arith) (omega arith)
