-- ===== src/Capture/Assembler/Types.antt =====
-- pcm_frame_assembler.hpp: the limits, the assembler's fields, its frames and its results.
use wiretone.Prelude.{ℕ, Bool, true, List, replicate, String}
use wiretone.Capture.CapturedPacket.Types.{normalized_pcm_size_for_frames}

abbrev pub logical_pcm_frame_samples : ℕ
logical_pcm_frame_samples = 960

abbrev pub logical_pcm_frame_bytes : ℕ
logical_pcm_frame_bytes = normalized_pcm_size_for_frames logical_pcm_frame_samples

-- What the view shows during the call of the sink.
pub record PcmFrameView : Type 0 where
  pub bytes : List ℕ  -- `data`
  pub sequence_number : ℕ  -- uint64
  pub flags : ℕ  -- uint32
  pub device_position_frames : ℕ  -- uint64
  pub qpc_position_100ns : ℕ  -- uint64

pub data PcmFrameAssemblerError : Type 0 where
  none zero_frame_count unknown_flags invalid_pcm_size sink_missing : PcmFrameAssemblerError

pub record PcmFrameAssemblyResult : Type 0 where
  pub error : PcmFrameAssemblerError
  pub input_frames : ℕ  -- uint32, as the next two
  pub completed_frames : ℕ
  pub dropped_partial_frames : ℕ

pub record PcmFrameAssembler : Type 0 where
  pub storage : List ℕ  -- bytes
  pub pending_frames : ℕ  -- uint32
  pub pending_flags : ℕ  -- uint32
  pub pending_all_silent : Bool
  pub pending_device_position_frames : ℕ  -- uint64
  pub pending_qpc_position_100ns : ℕ  -- uint64
  pub next_sequence_number : ℕ  -- uint64

-- `PcmFrameAssembler{}`
unfoldable pub new : PcmFrameAssembler
new = record {
  storage = replicate logical_pcm_frame_bytes 0;
  pending_frames = 0;
  pending_flags = 0;
  pending_all_silent = true;
  pending_device_position_frames = 0;
  pending_qpc_position_100ns = 0;
  next_sequence_number = 1;
}

abbrev pub error_to_string : PcmFrameAssemblerError → String
error_to_string PcmFrameAssemblerError.none = "none"
error_to_string PcmFrameAssemblerError.zero_frame_count = "zero_frame_count"
error_to_string PcmFrameAssemblerError.unknown_flags = "unknown_flags"
error_to_string PcmFrameAssemblerError.invalid_pcm_size = "invalid_pcm_size"
error_to_string PcmFrameAssemblerError.sink_missing = "sink_missing"
