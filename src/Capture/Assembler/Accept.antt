-- ===== src/Capture/Assembler/Accept.antt =====
-- pcm_frame_assembler.cpp: `accept_packet`, `discard_partial` and `reset`. The frames that the sink
-- is called with are a list, in the order of the calls.
use wiretone.Prelude.{
  ℕ, zero, suc, ◌+◌, ◌-◌, ◌*◌, ◌/◌, ◌%◌, ◌^◌, Bool, true, false, not, ◌&&◌, List, [], ◌∷◌, ◌++◌,
  ltb, ◌==◌, ◌!=◌, if◌then◌else◌, min, bit_or, has_flag, length, take, drop, copy_into,
}
use wiretone.Capture.CapturedPacket.Types.{
  normalized_sample_rate, normalized_pcm_size_for_frames, captured_packet_flag_silence,
  captured_packet_flag_discontinuity, captured_packet_flag_timestamp_error,
  captured_packet_unknown_flag_mask,
}
use wiretone.Capture.Assembler.Types.{
  logical_pcm_frame_samples, PcmFrameView, PcmFrameAssemblerError, PcmFrameAssemblyResult,
  PcmFrameAssembler,
}

-- The arguments of `accept_packet`; of the sink, whether there is one.
pub record Packet : Type 0 where
  pub normalized_pcm : List ℕ  -- bytes
  pub frame_count : ℕ  -- uint32
  pub flags : ℕ  -- uint32
  pub device_position_frames : ℕ  -- uint64
  pub qpc_position_100ns : ℕ  -- uint64
  pub has_sink : Bool

abbrev pub add_u64 : ℕ → ℕ → ℕ
add_u64 a b = (a + b) % 2 ^ 64

abbrev pub add_u32 : ℕ → ℕ → ℕ
add_u32 a b = (a + b) % 2 ^ 32

abbrev pub sub_u32 : ℕ → ℕ → ℕ
sub_u32 a b = (a + 2 ^ 32 - b) % 2 ^ 32

abbrev pub frames_to_100ns : ℕ → ℕ
frames_to_100ns frame_count = frame_count * 10_000_000 % 2 ^ 64 / normalized_sample_rate

unfoldable pub clear_partial : PcmFrameAssembler → PcmFrameAssembler
clear_partial a = record a {
  pending_frames = 0;
  pending_flags = 0;
  pending_all_silent = true;
  pending_device_position_frames = 0;
  pending_qpc_position_100ns = 0;
}

-- The variables of the loop, the assembler that it stores to, and the frames handed to the sink.
pub record Assembling : Type 0 where
  pub assembler : PcmFrameAssembler
  pub apply_discontinuity : Bool
  pub consumed_frames : ℕ  -- uint32
  pub result : PcmFrameAssemblyResult
  pub frames : List PcmFrameView

-- The start of a frame.
unfoldable pub begin_frame : Packet → Assembling → Assembling
begin_frame p s =
    if s.assembler.pending_frames == 0
    then record s {
      apply_discontinuity = false;
      assembler = record (s.assembler) {
        pending_all_silent = true;
        pending_flags = if s.apply_discontinuity then captured_packet_flag_discontinuity else 0;
        pending_device_position_frames = add_u64 p.device_position_frames s.consumed_frames;
        pending_qpc_position_100ns =
            add_u64 p.qpc_position_100ns (frames_to_100ns s.consumed_frames);
      };
    }
    else s

-- What the packet's flags add to the frame.
unfoldable pub mark_frame : Packet → PcmFrameAssembler → PcmFrameAssembler
mark_frame p a = record a {
  pending_flags =
      if has_flag p.flags captured_packet_flag_timestamp_error
      then bit_or a.pending_flags captured_packet_flag_timestamp_error
      else a.pending_flags;
  pending_all_silent = a.pending_all_silent && has_flag p.flags captured_packet_flag_silence;
}

-- The frames that one round copies.
unfoldable pub copy_frames : Packet → Assembling → ℕ
copy_frames p s =
    min (sub_u32 logical_pcm_frame_samples s.assembler.pending_frames)
      (sub_u32 p.frame_count s.consumed_frames)

unfoldable pub copied_bytes : Packet → ℕ → ℕ → List ℕ
copied_bytes p consumed_frames frames =
    take (normalized_pcm_size_for_frames frames)
      (drop (normalized_pcm_size_for_frames consumed_frames) p.normalized_pcm)

unfoldable pub copy_round : Packet → Assembling → ℕ → Assembling
copy_round p s frames = record s {
  assembler = record (s.assembler) {
    storage =
        copy_into s.assembler.storage (normalized_pcm_size_for_frames s.assembler.pending_frames)
          (copied_bytes p s.consumed_frames frames);
    pending_frames = add_u32 s.assembler.pending_frames frames;
  };
  consumed_frames = add_u32 s.consumed_frames frames;
}

-- The frame that the storage holds.
unfoldable pub completed_frame : PcmFrameAssembler → PcmFrameView
completed_frame a = record {
  bytes = a.storage;
  sequence_number = a.next_sequence_number;
  flags =
      if a.pending_all_silent
      then bit_or a.pending_flags captured_packet_flag_silence
      else a.pending_flags;
  device_position_frames = a.pending_device_position_frames;
  qpc_position_100ns = a.pending_qpc_position_100ns;
}

unfoldable pub complete_frame : Assembling → Assembling
unfolding clear_partial
complete_frame s = record s {
  frames = s.frames ++ (completed_frame s.assembler ∷ []);
  result = record (s.result) { completed_frames = add_u32 s.result.completed_frames 1 };
  assembler =
      clear_partial (record (s.assembler) {
        next_sequence_number = add_u64 s.assembler.next_sequence_number 1;
      });
}

unfoldable pub assemble_round : Packet → Assembling → Assembling
unfolding copy_round
assemble_round p s =
    if copied.assembler.pending_frames != logical_pcm_frame_samples
    then copied
    else complete_frame copied
  where
    begun : Assembling
    begun = begin_frame p s

    marked : Assembling
    marked = record begun { assembler = mark_frame p begun.assembler }

    copied : Assembling
    copied = copy_round p marked (copy_frames p marked)

-- The `while` loop. Each round consumes a frame at least, so the frame count is enough fuel.
unfoldable pub assemble_loop : ℕ → Packet → Assembling → Assembling
assemble_loop zero p s = s
assemble_loop (suc fuel) p s =
    let rest = assemble_loop fuel p (assemble_round p s) in
    if ltb s.consumed_frames p.frame_count then rest else s

-- `PcmFrameAssemblyResult{}` with the frames of the packet.
abbrev pub assembly_result : Packet → PcmFrameAssemblerError → PcmFrameAssemblyResult
assembly_result p e = record {
  error = e;
  input_frames = p.frame_count;
  completed_frames = 0;
  dropped_partial_frames = 0;
}

-- From the guards on to the loop: a discontinuity drops the frame that has been begun.
unfoldable pub begin_assembling : PcmFrameAssembler → Packet → Assembling
unfolding clear_partial
begin_assembling a p =
    if discontinuity && a.pending_frames != 0 then begun (clear_partial a) 1 else begun a 0
  where
    discontinuity : Bool
    discontinuity = has_flag p.flags captured_packet_flag_discontinuity

    begun : PcmFrameAssembler → ℕ → Assembling
    begun a dropped = record {
      assembler = a;
      apply_discontinuity = discontinuity;
      consumed_frames = 0;
      result = record (assembly_result p PcmFrameAssemblerError.none) {
        dropped_partial_frames = dropped;
      };
      frames = [];
    }

-- The result, the frames that the sink is called with, and the assembler.
unfoldable pub accept_packet :
    PcmFrameAssembler → Packet → PcmFrameAssemblyResult × List PcmFrameView × PcmFrameAssembler
accept_packet a p =
    if p.frame_count == 0
    then refused PcmFrameAssemblerError.zero_frame_count
    else if has_flag p.flags captured_packet_unknown_flag_mask
    then refused PcmFrameAssemblerError.unknown_flags
    else if length p.normalized_pcm != normalized_pcm_size_for_frames p.frame_count
    then refused PcmFrameAssemblerError.invalid_pcm_size
    else if not p.has_sink
    then refused PcmFrameAssemblerError.sink_missing
    else (done.result, done.frames, done.assembler)
  where
    refused :
        PcmFrameAssemblerError → PcmFrameAssemblyResult × List PcmFrameView × PcmFrameAssembler
    refused e = (assembly_result p e, [], a)

    done : Assembling
    done = assemble_loop p.frame_count p (begin_assembling a p)

unfoldable pub discard_partial : PcmFrameAssembler → Bool × PcmFrameAssembler
unfolding clear_partial
discard_partial a = (a.pending_frames != 0, clear_partial a)

unfoldable pub reset : PcmFrameAssembler → Bool × PcmFrameAssembler
unfolding discard_partial
reset a = ((discard_partial a).0, record ((discard_partial a).1) { next_sequence_number = 1 })
