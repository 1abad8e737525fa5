-- ===== src/Capture/Assembler/Assembly.antt =====
-- pcm_frame_assembler.cpp: `accept_packet` makes the frames of the packet's samples.
use wiretone.Prelude.{
  ℕ, ◌-◌, ◌*◌, ◌^◌, ◌<◌, ◌≡◌, ◌≢◌, ◌↔◌, refl, ap, ◌∙◌, Bool, true, false, not, ◌&&◌, Bool-cases,
  inl, inr, List, [], append-nil, ◌==◌, ◌!=◌, arith, has_flag, length, drop, bit_and_above_three,
}
use wiretone.Capture.Assembler.Types.{
  PcmFrameAssembler, PcmFrameAssemblerError, PcmFrameAssemblyResult, PcmFrameView,
}
use wiretone.Capture.Assembler.Accept.{Packet, Assembling, accept_packet}
use wiretone.Capture.Assembler.Samples.{Sample, samples_of, samples_from, feed, prepend}
use wiretone.Capture.Assembler.Between.{Holds, Between}
use wiretone.Capture.Assembler.Begin.{
  CanAssemble, Fits, kept, assembled, accepts, accepted, assembled-Between,
}

-- The guards of `accept_packet` in one test.
abbrev passes : Packet → Bool
passes p =
    p.frame_count != 0
    && not (has_flag p.flags 0xffff_fff8)
    && length p.normalized_pcm == p.frame_count * 4
    && p.has_sink

passes-CanAssemble : (p : Packet) → p.flags < 2 ^ 32 → passes p ≡ true → CanAssemble p
passes-CanAssemble p w e =
    let mask = bit_and_above_three p.flags w in
    record {
      some_frames = ground arith;
      flags = ground arith;
      size = ground arith;
      sink = ground arith;
    }

fails-refused :
    (a : PcmFrameAssembler) (p : Packet)
    → passes p ≡ false
    → ((accept_packet a p).1 ≡ []) × ((accept_packet a p).2 ≡ a)
unfolding accept_packet
fails-refused a p e = ground (arith, e)

-- `accept_packet` succeeds exactly with a sink, on a packet with frames, of four bytes each, and no
-- unknown flag.
pub accept_packet-iff-CanAssemble :
    (a : PcmFrameAssembler) (p : Packet) (waiting : List Sample)
    → Holds a waiting
    → Fits p
    → ((accept_packet a p).0.error ≡ PcmFrameAssemblerError.none) ↔ CanAssemble p
accept_packet-iff-CanAssemble a p waiting h fits = (accepts a p fits.flags, back)
  where
    back : CanAssemble p → (accept_packet a p).0.error ≡ PcmFrameAssemblerError.none
    back can =
        rw (accepted a p fits.flags can) ((assembled-Between a p waiting h fits can).0.no_error)

-- A packet that is refused changes nothing, and the sink is not called.
pub accept_packet-refused :
    (a : PcmFrameAssembler) (p : Packet) (waiting : List Sample)
    → Holds a waiting
    → Fits p
    → (accept_packet a p).0.error ≢ PcmFrameAssemblerError.none
    → ((accept_packet a p).1 ≡ []) × ((accept_packet a p).2 ≡ a)
accept_packet-refused a p waiting h fits e = elim (Bool-cases (passes p)) [
  | inr fails ↦ fails-refused a p fails
  | inl passed ↦ absurd (
      e (
        (accept_packet-iff-CanAssemble a p waiting h fits).1
          (passes-CanAssemble p fits.flags passed)))
]

-- What a packet leaves: the frames that the sink is called with are those of the samples that
-- waited and the packet's samples, and the assembler holds the samples behind them.
pub record Assembles (fed : List PcmFrameView × ℕ × List Sample) (result : PcmFrameAssemblyResult)
    (frames : List PcmFrameView) (a : PcmFrameAssembler) : Type 0 where
  pub delivered : frames ≡ fed.0
  pub next : a.next_sequence_number ≡ fed.1
  pub holds : Holds a fed.2
  pub counted : result.completed_frames ≡ length frames

at_end :
    (p : Packet) (all : List PcmFrameView × ℕ × List Sample) (s : Assembling)
    → Between p all s
    → s.consumed_frames ≡ p.frame_count
    → Assembles all s.result s.frames s.assembler
unfolding feed
at_end p all s b e =
    let none : p.frame_count - s.consumed_frames ≡ 0 = omega arith in
    let ends : all ≡ (s.frames, s.assembler.next_sequence_number, b.waiting) =
      b.so_far
      ∙ ap
          (λ (k : ℕ). prepend s.frames (
            feed s.assembler.next_sequence_number b.waiting (
              samples_from p s.apply_discontinuity (drop (s.consumed_frames * 4) p.normalized_pcm)
                s.consumed_frames k)))
          none
      ∙ ap (λ (t : List PcmFrameView). (t, s.assembler.next_sequence_number, b.waiting))
          (append-nil s.frames) in
    rw ends (record { delivered = refl; next = refl; holds = b.holds; counted = b.counted })

-- An accepted packet makes the frames that its samples make one by one behind those that waited,
-- which a discontinuous packet drops: the sink is called with these frames, the result counts them,
-- and the assembler holds the next sequence number and the samples that wait for a full frame.
pub accept_packet-Assembles :
    (a : PcmFrameAssembler) (p : Packet) (waiting : List Sample)
    → Holds a waiting
    → Fits p
    → (accept_packet a p).0.error ≡ PcmFrameAssemblerError.none
    → Assembles
        (feed a.next_sequence_number (kept p waiting) (samples_of p))
        (accept_packet a p).0
        (accept_packet a p).1
        (accept_packet a p).2
accept_packet-Assembles a p waiting h fits e =
    let can = accepts a p fits.flags e in
    let (b, all) = assembled-Between a p waiting h fits can in
    rw (accepted a p fits.flags can)
      (at_end p (feed a.next_sequence_number (kept p waiting) (samples_of p)) (assembled a p) b all)
