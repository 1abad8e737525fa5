-- ===== src/Capture/Assembler/Begin.antt =====
-- pcm_frame_assembler.cpp: `accept_packet` up to its loop, and what it wants of a packet.
use wiretone.Prelude.{
  ℕ, ◌*◌, ◌^◌, ◌<◌, ◌≡◌, ◌≢◌, refl, subst, ap, Bool, true, false, Bool-cases, inl, inr, List, [],
  ◌∷◌, ◌!=◌, if◌then◌else◌, arith, has_flag, length, bit_and_above_three, length-replicate,
}
use mathlib.Core.Bool.{false≢true}
use wiretone.Capture.Assembler.Types.{PcmFrameAssembler, PcmFrameAssemblerError, new}
use wiretone.Capture.Assembler.Accept.{
  Packet, Assembling, clear_partial, assemble_loop, begin_assembling, assembly_result,
  accept_packet,
}
use wiretone.Capture.Assembler.Samples.{Sample, samples_of, samples_from, feed}
use wiretone.Capture.Assembler.Between.{Holds, Between}
use wiretone.Capture.Assembler.Rounds.{assemble_loop-Between}

-- What `accept_packet` wants of its arguments.
pub record CanAssemble (p : Packet) : Type 0 where
  pub some_frames : p.frame_count ≢ 0
  pub flags : p.flags < 8
  pub size : length p.normalized_pcm ≡ p.frame_count * 4
  pub sink : p.has_sink ≡ true

-- The widths of the arguments.
pub record Fits (p : Packet) : Type 0 where
  pub frame_count : p.frame_count < 2 ^ 32
  pub flags : p.flags < 2 ^ 32

-- The samples that a packet finds waiting: none, when it is discontinuous.
abbrev pub kept : Packet → List Sample → List Sample
kept p waiting = if has_flag p.flags 2 then [] else waiting

pub cleared-Holds :
    (a : PcmFrameAssembler) (waiting : List Sample) → Holds a waiting → Holds (clear_partial a) []
unfolding clear_partial
cleared-Holds a waiting h = record {
  sums_up = record { flags = refl; silent = refl; device_position = refl; qpc_position = refl };
  stores = record { size = h.stores.size; count = refl; bytes = refl };
  few = omega arith;
}

pub new-Holds : Holds new []
unfolding new
new-Holds = record {
  sums_up = record { flags = refl; silent = refl; device_position = refl; qpc_position = refl };
  stores = record { size = length-replicate {A = ℕ} 3840 0; count = refl; bytes = refl };
  few = omega arith;
}

abbrev begun : PcmFrameAssembler → Packet → Bool → ℕ → Assembling
begun a p discontinuous dropped = record {
  assembler = a;
  apply_discontinuity = discontinuous;
  consumed_frames = 0;
  result = record (assembly_result p PcmFrameAssemblerError.none) {
    dropped_partial_frames = dropped;
  };
  frames = [];
}

-- Nothing has been consumed.
begun-Between :
    (a : PcmFrameAssembler) (p : Packet) (waiting : List Sample) (d : Bool) (dropped : ℕ)
    → Holds a waiting
    → (d ≡ true → waiting ≡ [])
    → Between p
        (feed a.next_sequence_number waiting (samples_from p d p.normalized_pcm 0 p.frame_count))
        (begun a p d dropped)
begun-Between a p waiting d dropped h starts = record {
  waiting = waiting;
  holds = h;
  within = omega arith;
  starts = starts;
  counted = refl;
  few_frames = omega arith;
  no_error = refl;
  so_far =
      ap (λ (k : ℕ). feed a.next_sequence_number waiting (samples_from p d p.normalized_pcm 0 k))
        (omega arith);
}

no_length : (xs : List Sample) → length xs ≡ 0 → xs ≡ []
no_length [] e = refl
no_length (x ∷ xs) e = absurd (omega arith)

begin_assembling-Between :
    (a : PcmFrameAssembler) (p : Packet) (waiting : List Sample)
    → Holds a waiting
    → Between p (feed a.next_sequence_number (kept p waiting) (samples_of p)) (begin_assembling a p)
unfolding begin_assembling clear_partial
begin_assembling-Between a p waiting h = elim (Bool-cases (has_flag p.flags 2)) [
  | inr continuous ↦
      rw continuous (begun-Between a p waiting false 0 h (λ e. absurd (false≢true e)))
  | inl broken ↦ elim (Bool-cases (a.pending_frames != 0)) [
    | inl partial ↦
        rw (broken, partial)
          (begun-Between (clear_partial a) p [] true 1 (cleared-Holds a waiting h) (λ _. refl))
    | inr none ↦
        let count = h.stores.count in
        rw (broken, none)
          (begun-Between a p [] true 0 (subst (Holds a) (no_length waiting (ground arith)) h)
            (λ _. refl))
  ]
]

abbrev pub assembled : PcmFrameAssembler → Packet → Assembling
assembled a p = assemble_loop p.frame_count p (begin_assembling a p)

pub accepts :
    (a : PcmFrameAssembler) (p : Packet)
    → p.flags < 2 ^ 32
    → (accept_packet a p).0.error ≡ PcmFrameAssemblerError.none
    → CanAssemble p
unfolding accept_packet
accepts a p w e =
    let mask = bit_and_above_three p.flags w in
    record {
      some_frames = ground arith;
      flags = ground arith;
      size = ground arith;
      sink = ground arith;
    }

pub accepted :
    (a : PcmFrameAssembler) (p : Packet)
    → p.flags < 2 ^ 32
    → CanAssemble p
    → accept_packet a p
      ≡ ((assembled a p).result, (assembled a p).frames, (assembled a p).assembler)
unfolding accept_packet
accepted a p w h = ground (arith, bit_and_above_three p.flags w)

pub assembled-Between :
    (a : PcmFrameAssembler) (p : Packet) (waiting : List Sample)
    → Holds a waiting
    → Fits p
    → CanAssemble p
    → Between p (feed a.next_sequence_number (kept p waiting) (samples_of p)) (assembled a p)
      × ((assembled a p).consumed_frames ≡ p.frame_count)
assembled-Between a p waiting h fits can =
    assemble_loop-Between p (feed a.next_sequence_number (kept p waiting) (samples_of p))
      fits.frame_count can.size p.frame_count (begin_assembling a p)
      (begin_assembling-Between a p waiting h) (omega arith)
