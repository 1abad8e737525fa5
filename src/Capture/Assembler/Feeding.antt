-- ===== src/Capture/Assembler/Feeding.antt =====
-- pcm_frame_assembler.cpp: the loop of `accept_packet` makes the frames of the samples in order.
use wiretone.Prelude.{
  ℕ, ◌+◌, ◌-◌, ◌*◌, ◌^◌, ◌≤◌, ◌<◌, ◌≡◌, refl, sym, ap, ap₂, subst, take, ◌∙◌, Bool, false,
  Bool-cases, inl, inr, List, [], ◌∷◌, ◌++◌, ◌==◌, arith, length, length-append, drop, drop-drop,
}
use wiretone.Capture.Assembler.Types.{PcmFrameAssemblyResult, PcmFrameView}
use wiretone.Capture.Assembler.Accept.{
  Packet, Assembling, add_u64, begin_frame, mark_frame, copy_frames, copy_round,
}
use wiretone.Capture.Assembler.Samples.{
  Sample, frame_of, samples_from, length-samples_from, samples_from-add, feed, feed-wait, feed-fill,
  prepend,
}
use wiretone.Capture.Assembler.Filling.{SumsUp, Stores, mark_frame-SumsUp, copy_round-Stores}
use wiretone.Capture.Assembler.Between.{left_samples, Between, Filled}

module _ (p : Packet) (all : List PcmFrameView × ℕ × List Sample) (s : Assembling)
    (b : Between p all s) (width : p.frame_count < 2 ^ 32)
    (size : length p.normalized_pcm ≡ p.frame_count * 4)
    (more : s.consumed_frames < p.frame_count) where
  abbrev pub marked : Assembling
  marked = record (begin_frame p s) { assembler = mark_frame p (begin_frame p s).assembler }

  abbrev pub frames : ℕ
  frames = copy_frames p marked

  abbrev added : List Sample
  added =
      samples_from p s.apply_discontinuity (drop (s.consumed_frames * 4) p.normalized_pcm)
        s.consumed_frames frames

  abbrev held : List Sample
  held = b.waiting ++ added

  abbrev pub copied : Assembling
  copied = copy_round p marked frames

  -- What marking the frame leaves alone.
  marked_keeps :
      (marked.assembler.storage ≡ s.assembler.storage)
      × (marked.assembler.pending_frames ≡ s.assembler.pending_frames)
      × (marked.assembler.next_sequence_number ≡ s.assembler.next_sequence_number)
      × (marked.consumed_frames ≡ s.consumed_frames)
      × (marked.result ≡ s.result)
      × (marked.frames ≡ s.frames)
  unfolding mark_frame begin_frame
  marked_keeps = elim (Bool-cases (s.assembler.pending_frames == 0)) [
    | inl e ↦ rw e (refl, refl, refl, refl, refl, refl)
    | inr e ↦ rw e (refl, refl, refl, refl, refl, refl)
  ]

  -- Behind the first sample, none is discontinuous.
  applied : marked.apply_discontinuity ≡ false
  unfolding begin_frame
  applied = elim (Bool-cases (s.assembler.pending_frames == 0)) [
    | inl e ↦ rw e refl
    | inr going_on ↦ rw going_on (elim (Bool-cases s.apply_discontinuity) [
      | inr e ↦ e
      | inl e ↦
          let count = b.holds.stores.count in
          absurd (ground (arith, ap (length {A = Sample}) (b.starts e)))
    ])
  ]

  frames_bounds :
      (1 ≤ frames)
      × (length b.waiting + frames ≤ 960)
      × (s.consumed_frames + frames ≤ p.frame_count)
  unfolding copy_frames
  frames_bounds =
      let (_, pending, _, consumed, _, _) = marked_keeps in
      let few = b.holds.few in let count = b.holds.stores.count in ground arith

  length-held : length held ≡ length b.waiting + frames
  length-held = omega (
    arith,
    length-append b.waiting added,
    length-samples_from p s.apply_discontinuity (drop (s.consumed_frames * 4) p.normalized_pcm)
        s.consumed_frames frames,
  )

  marked-Stores : Stores marked.assembler b.waiting
  marked-Stores =
      let (storage, pending, _, _, _, _) = marked_keeps in
      let t = b.holds.stores in
      record {
        size = ap (length {A = ℕ}) storage ∙ t.size;
        count = pending ∙ t.count;
        bytes = ap (take (length b.waiting * 4)) storage ∙ t.bytes;
      }

  copied-Stores : Stores copied.assembler held
  copied-Stores =
      let (_, _, _, consumed, _, _) = marked_keeps in
      let (_, fits, enough) = frames_bounds in
      subst
        (λ (c : ℕ). Stores copied.assembler (
          b.waiting
          ++ samples_from p s.apply_discontinuity (drop (c * 4) p.normalized_pcm) c frames))
        consumed
        (copy_round-Stores p marked b.waiting s.apply_discontinuity frames marked-Stores fits
          (omega arith) size)

  copied-SumsUp : SumsUp copied.assembler held
  unfolding copy_round
  copied-SumsUp =
      let (some, _, enough) = frames_bounds in
      let h =
        mark_frame-SumsUp p s b.waiting (drop (s.consumed_frames * 4) p.normalized_pcm) frames
          b.holds.sums_up b.holds.stores.count b.starts (omega arith) some in
      record {
        flags = h.flags;
        silent = h.silent;
        device_position = h.device_position;
        qpc_position = h.qpc_position;
      }

  abbrev consumed_after : ℕ
  consumed_after = s.consumed_frames + frames

  abbrev left_after : List Sample
  left_after =
      samples_from p false (drop (consumed_after * 4) p.normalized_pcm) consumed_after
        (p.frame_count - consumed_after)

  left_split : left_samples p s ≡ added ++ left_after
  left_split =
      let (some, _, enough) = frames_bounds in
      let e : p.frame_count - s.consumed_frames ≡ frames + (p.frame_count - consumed_after) =
        omega arith in
      let all : s.consumed_frames * 4 + frames * 4 ≡ consumed_after * 4 = omega arith in
      ap
        (samples_from p s.apply_discontinuity (drop (s.consumed_frames * 4) p.normalized_pcm)
          s.consumed_frames)
        e
      ∙ samples_from-add p s.apply_discontinuity (drop (s.consumed_frames * 4) p.normalized_pcm)
          s.consumed_frames frames (p.frame_count - consumed_after) some
      ∙ ap
          (λ (t : List ℕ).
            added ++ samples_from p false t consumed_after (p.frame_count - consumed_after))
          (drop-drop (s.consumed_frames * 4) (frames * 4) p.normalized_pcm
            ∙ ap (λ (k : ℕ). drop k p.normalized_pcm) all)

  -- What the copy leaves alone, and what it moves.
  copied_keeps :
      (copied.assembler.next_sequence_number ≡ s.assembler.next_sequence_number)
      × (copied.consumed_frames ≡ consumed_after)
      × (copied.result ≡ s.result)
      × (copied.frames ≡ s.frames)
      × (copied.apply_discontinuity ≡ false)
  unfolding copy_round
  copied_keeps =
      let (_, _, next, consumed, result, delivered) = marked_keeps in
      let (_, _, enough) = frames_bounds in (next, omega arith, result, delivered, applied)

  left_of_copied : left_samples p copied ≡ left_after
  left_of_copied =
      let (_, consumed, _, _, none) = copied_keeps in
      ap₂
        (λ (d : Bool) (c : ℕ).
          samples_from p d (drop (c * 4) p.normalized_pcm) c (p.frame_count - c))
        none consumed

  so_far_split :
      all ≡ prepend s.frames (feed s.assembler.next_sequence_number b.waiting (added ++ left_after))
  so_far_split =
      b.so_far
      ∙ ap
          (λ (xs : List Sample).
            prepend s.frames (feed s.assembler.next_sequence_number b.waiting xs))
          left_split

  pub copied-Filled : Filled p all copied
  copied-Filled =
      let (next, consumed, result, delivered, none) = copied_keeps in
      let (some, fits, enough) = frames_bounds in
      let few = b.few_frames in
      let waited = b.holds.few in
      record {
        held = held;
        sums_up = copied-SumsUp;
        stores = copied-Stores;
        at_most = omega (arith, length-held);
        within = omega arith;
        applied = none;
        counted =
            ap (λ (r : PcmFrameAssemblyResult). r.completed_frames) result
            ∙ b.counted
            ∙ ap (length {A = PcmFrameView}) (sym delivered);
        few_frames = omega (arith, ap (length {A = PcmFrameView}) delivered);
        no_error = ap (λ (r : PcmFrameAssemblyResult). r.error) result ∙ b.no_error;
        partly = λ lt.
            so_far_split
            ∙ ap (prepend s.frames) (
                feed-wait s.assembler.next_sequence_number b.waiting added left_after
                  (omega (arith, length-held, length-append b.waiting added)))
            ∙ (λ i. prepend (sym delivered i) (feed (sym next i) held (sym left_of_copied i)));
        full = λ e.
            so_far_split
            ∙ ap (prepend s.frames) (
                feed-fill s.assembler.next_sequence_number b.waiting added left_after waited
                  (omega (arith, length-held, length-append b.waiting added)))
            ∙ (λ i. prepend (sym delivered i) (
                prepend (frame_of (sym next i) held ∷ [])
                  (feed (add_u64 (sym next i) 1) [] (sym left_of_copied i))));
      }

  pub moves : (copied.consumed_frames ≡ s.consumed_frames + frames) × (1 ≤ frames)
  moves = (copied_keeps.1, frames_bounds.0)
