-- ===== src/Sender/Wasapi/Frames.antt =====
-- wasapi_loopback_capture.cpp: what is counted of a run: `on_completed_frame`, the sink of the frame
-- assembler, and `reset_run_state`.
use wiretone.Prelude.{ℕ, Bool, false, ◌&&◌, if◌then◌else◌, has_flag}
use wiretone.Capture.Recovery as Recovery
use wiretone.Capture.CapturedPacket.Types.{
  captured_packet_flag_silence, captured_packet_flag_discontinuity,
  captured_packet_flag_timestamp_error,
}
use wiretone.Capture.Assembler.Types.{PcmFrameView}
use wiretone.Capture.Assembler.Accept as Assembler
use wiretone.Sender.Wasapi.Platform.{Platform}
use wiretone.Sender.Wasapi.Types.{Counters, no_counters, Impl}
use wiretone.Sender.Wasapi.Endpoint.{increment_u64}

-- `if (test) ++counter`
abbrev pub increment_if : Bool → ℕ → ℕ
increment_if test counter = if test then increment_u64 counter else counter

-- The counters of a frame; whether it is the first after a recovery.
unfoldable pub count_frame : Bool → PcmFrameView → Counters → Counters
count_frame recovered frame c = record c {
  completed_pcm_frames = increment_u64 c.completed_pcm_frames;
  last_completed_pcm_sequence = frame.sequence_number;
  last_completed_device_position_frames = frame.device_position_frames;
  last_completed_qpc_position_100ns = frame.qpc_position_100ns;
  silent_pcm_frames =
      increment_if (has_flag frame.flags captured_packet_flag_silence) c.silent_pcm_frames;
  discontinuity_pcm_frames = increment_if discontinuous c.discontinuity_pcm_frames;
  timestamp_error_pcm_frames =
      increment_if (has_flag frame.flags captured_packet_flag_timestamp_error)
        c.timestamp_error_pcm_frames;
  recovery_discontinuity_pcm_frames =
      increment_if (recovered && discontinuous) c.recovery_discontinuity_pcm_frames;
}
  where
    discontinuous : Bool
    discontinuous = has_flag frame.flags captured_packet_flag_discontinuity

module _ (platform : Platform) where
  unfoldable pub on_completed_frame : PcmFrameView → Impl platform → Impl platform
  on_completed_frame frame s = record s {
    counters = count_frame s.recovery_frame_pending frame s.counters;
    recovery_frame_pending = false;
  }

  unfoldable pub reset_run_state : Impl platform → Impl platform
  reset_run_state s = record s {
    frame_assembler = (Assembler.reset s.frame_assembler).1;
    recovery = Recovery.reset;
    recovery_frame_pending = false;
    counters = no_counters;
  }
