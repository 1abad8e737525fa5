-- ===== src/Capture/Assembler/Between.antt =====
-- pcm_frame_assembler.cpp: what holds between two rounds of the loop of `accept_packet`.
use wiretone.Prelude.{ℕ, ◌+◌, ◌-◌, ◌*◌, ◌≤◌, ◌<◌, ◌≡◌, true, false, List, [], ◌∷◌, length, drop}
use wiretone.Capture.Assembler.Types.{PcmFrameAssembler, PcmFrameAssemblerError, PcmFrameView}
use wiretone.Capture.Assembler.Accept.{Packet, Assembling, add_u64}
use wiretone.Capture.Assembler.Samples.{Sample, frame_of, samples_from, feed, prepend}
use wiretone.Capture.Assembler.Filling.{SumsUp, Stores}

-- The assembler holds the samples that wait for a full frame.
pub record Holds (a : PcmFrameAssembler) (waiting : List Sample) : Type 0 where
  pub sums_up : SumsUp a waiting
  pub stores : Stores a waiting
  pub few : length waiting < 960

-- The samples of the packet that the loop has still to consume.
abbrev pub left_samples : Packet → Assembling → List Sample
left_samples p s =
    samples_from p s.apply_discontinuity (drop (s.consumed_frames * 4) p.normalized_pcm)
      s.consumed_frames (p.frame_count - s.consumed_frames)

-- Between two rounds: what the sink has been called with is the start of what all the samples make.
pub record Between (p : Packet) (all : List PcmFrameView × ℕ × List Sample) (s : Assembling)
    : Type 0 where
  pub waiting : List Sample
  pub holds : Holds s.assembler waiting
  pub within : s.consumed_frames ≤ p.frame_count
  pub starts : s.apply_discontinuity ≡ true → waiting ≡ []
  pub counted : s.result.completed_frames ≡ length s.frames
  pub few_frames : length s.frames ≤ s.consumed_frames
  pub no_error : s.result.error ≡ PcmFrameAssemblerError.none
  pub so_far :
      all ≡ prepend s.frames (feed s.assembler.next_sequence_number waiting (left_samples p s))

-- After the copy of a round: the frame that has been begun may be full.
pub record Filled (p : Packet) (all : List PcmFrameView × ℕ × List Sample) (c : Assembling)
    : Type 0 where
  pub held : List Sample
  pub sums_up : SumsUp c.assembler held
  pub stores : Stores c.assembler held
  pub at_most : length held ≤ 960
  pub within : c.consumed_frames ≤ p.frame_count
  pub applied : c.apply_discontinuity ≡ false
  pub counted : c.result.completed_frames ≡ length c.frames
  pub few_frames : length c.frames + 1 ≤ c.consumed_frames
  pub no_error : c.result.error ≡ PcmFrameAssemblerError.none
  pub partly :
      length held < 960
      → all ≡ prepend c.frames (feed c.assembler.next_sequence_number held (left_samples p c))
  pub full :
      length held ≡ 960
      → all
        ≡ prepend c.frames (
            prepend
              (frame_of c.assembler.next_sequence_number held ∷ [])
              (feed (add_u64 c.assembler.next_sequence_number 1) [] (left_samples p c)))
