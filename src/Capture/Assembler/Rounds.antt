-- ===== src/Capture/Assembler/Rounds.antt =====
-- pcm_frame_assembler.cpp: the rounds of the loop of `accept_packet`, to its end.
use wiretone.Prelude.{
  ℕ, zero, suc, ◌+◌, ◌*◌, ◌^◌, ◌≤◌, ◌<◌, ◌≡◌, ◌≢◌, refl, sym, ap, ◌∙◌, Bool-cases, ◌⊎◌, inl, inr,
  List, [], ◌∷◌, ◌++◌, append_assoc, ltb, ◌!=◌, arith, length, length-append,
}
use mathlib.Core.Bool.{false≢true}
use wiretone.Capture.Assembler.Types.{PcmFrameView}
use wiretone.Capture.Assembler.Accept.{
  Packet, Assembling, add_u64, add_u32, clear_partial, begin_frame, mark_frame, copy_frames,
  copy_round, completed_frame, complete_frame, assemble_round, assemble_loop,
}
use wiretone.Capture.Assembler.Samples.{Sample, feed, prepend}
use wiretone.Capture.Assembler.Filling.{completed_frame-frame_of}
use wiretone.Capture.Assembler.Feeding.{copied, copied-Filled, moves}
use wiretone.Capture.Assembler.Between.{Between, Filled, left_samples}

prepend-prepend :
    (xs ys : List PcmFrameView) (r : List PcmFrameView × ℕ × List Sample)
    → prepend xs (prepend ys r) ≡ prepend (xs ++ ys) r
prepend-prepend xs ys r =
    ap (λ (t : List PcmFrameView). (t, r.1, r.2)) (sym (append_assoc xs ys r.0))

module _ (p : Packet) (all : List PcmFrameView × ℕ × List Sample) (c : Assembling)
    (f : Filled p all c) where
  waits-Between : length f.held < 960 → Between p all c
  waits-Between lt =
      let few = f.few_frames in
      record {
        waiting = f.held;
        holds = record { sums_up = f.sums_up; stores = f.stores; few = lt };
        within = f.within;
        starts = λ e. absurd (false≢true (sym f.applied ∙ e));
        counted = f.counted;
        few_frames = omega arith;
        no_error = f.no_error;
        so_far = f.partly lt;
      }

  abbrev delivered : PcmFrameView
  delivered = completed_frame c.assembler

  abbrev rest : List PcmFrameView × ℕ × List Sample
  rest = feed (add_u64 c.assembler.next_sequence_number 1) [] (left_samples p c)

  completes-Between :
      p.frame_count < 2 ^ 32 → length f.held ≡ 960 → Between p all (complete_frame c)
  unfolding complete_frame clear_partial
  completes-Between width full =
      let few = f.few_frames in
      let within = f.within in
      let counted = f.counted in
      let one : length (c.frames ++ (delivered ∷ [])) ≡ length c.frames + 1 =
        length-append c.frames (delivered ∷ []) in
      record {
        waiting = [];
        holds = record {
          sums_up = record {
            flags = refl;
            silent = refl;
            device_position = refl;
            qpc_position = refl;
          };
          stores = record { size = f.stores.size; count = refl; bytes = refl };
          few = omega arith;
        };
        within = f.within;
        starts = λ _. refl;
        counted = omega (arith, one);
        few_frames = omega (arith, one);
        no_error = f.no_error;
        so_far =
            f.full full
            ∙ ap (λ (v : PcmFrameView). prepend c.frames (prepend (v ∷ []) rest))
                (sym (completed_frame-frame_of c.assembler f.held f.sums_up f.stores full))
            ∙ prepend-prepend c.frames (delivered ∷ []) rest;
      }

-- The round ends with the copy, or with the frame that the copy has filled.
assemble_round-cases :
    (p : Packet) (s : Assembling)
    → let begun = begin_frame p s in
      let marked = record begun { assembler = mark_frame p begun.assembler } in
      let c = copy_round p marked (copy_frames p marked) in
      ((c.assembler.pending_frames ≢ 960) × (assemble_round p s ≡ c))
      ⊎ ((c.assembler.pending_frames ≡ 960) × (assemble_round p s ≡ complete_frame c))
unfolding assemble_round copy_round
assemble_round-cases p s =
    let begun = begin_frame p s in
    let marked = record begun { assembler = mark_frame p begun.assembler } in
    let frames = add_u32 marked.assembler.pending_frames (copy_frames p marked) in
    elim (Bool-cases (frames != 960)) [
      | inl ne ↦ inl (ground (arith, ne), rw ne refl)
      | inr e ↦ inr (ground (arith, e), rw e refl)
    ]

complete_frame-consumed : (c : Assembling) → (complete_frame c).consumed_frames ≡ c.consumed_frames
unfolding complete_frame
complete_frame-consumed c = refl

module _ (p : Packet) (all : List PcmFrameView × ℕ × List Sample) (width : p.frame_count < 2 ^ 32)
    (size : length p.normalized_pcm ≡ p.frame_count * 4) where
  round-Between :
      (s : Assembling)
      → Between p all s
      → s.consumed_frames < p.frame_count
      → Between p all (assemble_round p s)
  round-Between s b more =
      let f = copied-Filled p all s b width size more in
      let c = copied p all s b width size more in
      let count = f.stores.count in
      let most = f.at_most in
      elim (assemble_round-cases p s) [
        | inl (part, e) ↦ rw e (waits-Between p all c f (omega arith))
        | inr (full, e) ↦ rw e (completes-Between p all c f width (omega arith))
      ]

  round-moves :
      (s : Assembling)
      → Between p all s
      → s.consumed_frames < p.frame_count
      → s.consumed_frames < (assemble_round p s).consumed_frames
  round-moves s b more =
      let c = copied p all s b width size more in
      let (moved, some) = moves p all s b width size more in
      elim (assemble_round-cases p s) [
        | inl (_, e) ↦ rw e (omega arith)
        | inr (_, e) ↦ rw e (omega (arith, complete_frame-consumed c))
      ]

  -- A fuel of the samples still to consume is enough.
  pub assemble_loop-Between :
      (fuel : ℕ) (s : Assembling)
      → Between p all s
      → p.frame_count ≤ fuel + s.consumed_frames
      → Between p all (assemble_loop fuel p s)
        × ((assemble_loop fuel p s).consumed_frames ≡ p.frame_count)
  unfolding assemble_loop
  assemble_loop-Between zero s b enough = let w = b.within in (b, omega arith)
  assemble_loop-Between (suc fuel) s b enough =
      elim (Bool-cases (ltb s.consumed_frames p.frame_count)) [
        | inr done ↦ let w = b.within in rw done (b, ground arith)
        | inl more ↦
            let lt : s.consumed_frames < p.frame_count = ground arith in
            rw more (
              assemble_loop-Between fuel (assemble_round p s) (round-Between s b lt)
                (omega (arith, round-moves s b lt)))
      ]
