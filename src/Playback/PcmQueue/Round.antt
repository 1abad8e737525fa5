-- ===== src/Playback/PcmQueue/Round.antt =====
-- pcm_queue.cpp: what one round of the loop of `render` does.
use wiretone.Prelude.{
  ℕ, suc, ◌+◌, ◌-◌, ◌*◌, ◌%◌, ◌≤◌, ◌<◌, ◌≡◌, ◌≢◌, refl, sym, ap, ◌∙◌, List, [], ◌++◌, arith, length,
  length-take, length-drop, take, drop, replicate, drop-drop, take-append_le, drop-append_le,
  drop_all, copy_into, window, window-congruent, All-get_or, inl, inr, Bool-cases, ◌!=◌,
}
use wiretone.Playback.PcmQueue.Types.{empty_slot, add_u32, add_u64, sub_u64}
use wiretone.Playback.PcmQueue.Render.{
  Rendering, copy_frames, current_slot, copied_samples, copy_round, release_slot, render_round,
}
use wiretone.Playback.PcmQueue.Pending.{flat, samples_from, HasSamples, empty_slot-HasSamples}
use wiretone.Playback.PcmQueue.Between.{left_count, left_samples, Between, copy_behind}

module _ (n : ℕ) (before : List ℕ) (s : Rendering) (b : Between n before s)
    (more : s.output_frame_offset < n) (some_left : left_count s ≢ 0) where
  abbrev pub frames : ℕ
  frames = copy_frames n s

  pub frames_bounds :
      (1 ≤ frames) × (s.slot_offset + frames ≤ 960) × (s.output_frame_offset + frames ≤ n)
  unfolding copy_frames
  frames_bounds = let a = b.offset in let w = b.width in ground arith

  abbrev own : List ℕ
  own = (current_slot s).samples

  abbrev others : List ℕ
  others = flat (window 32 empty_slot s.queue.slots (s.read + 1) (left_count s - 1))

  pub own_whole : length own ≡ 1920
  own_whole =
      All-get_or HasSamples s.queue.slots (s.read % 32) empty_slot b.whole empty_slot-HasSamples

  -- What is left is the rest of the current slot, and the other slots.
  left_split : left_samples s ≡ drop (s.slot_offset * 2) own ++ others
  left_split =
      let e : left_count s ≡ suc (left_count s - 1) = omega arith in
      ap (λ (k : ℕ). samples_from s.queue.slots s.read k s.slot_offset) e
      ∙ drop-append_le (s.slot_offset * 2) own others (let a = b.offset in omega (arith, own_whole))

  chunk_size : length (copied_samples s frames) ≡ frames * 2
  unfolding copied_samples
  chunk_size =
      let (_, a, _) = frames_bounds in
      omega (
        arith,
        own_whole,
        length-take (frames * 2) (drop (s.slot_offset * 2) own),
        length-drop (s.slot_offset * 2) own,
      )

  chunk_taken :
      copied_samples s frames ≡ take (frames * 2) (drop (s.output_frame_offset * 2) before)
  unfolding copied_samples
  chunk_taken =
      let (_, a, _) = frames_bounds in
      sym (
        take-append_le (frames * 2) (drop (s.slot_offset * 2) own) others
          (omega (arith, own_whole, length-drop (s.slot_offset * 2) own)))
      ∙ ap (take (frames * 2)) (sym left_split ∙ b.rest)

  left_after :
      drop (frames * 2) (left_samples s) ≡ drop ((s.slot_offset + frames) * 2) own ++ others
  left_after =
      let (_, a, _) = frames_bounds in
      let e : s.slot_offset * 2 + frames * 2 ≡ (s.slot_offset + frames) * 2 = omega arith in
      ap (drop (frames * 2)) left_split
      ∙ drop-append_le (frames * 2) (drop (s.slot_offset * 2) own) others
          (omega (arith, own_whole, length-drop (s.slot_offset * 2) own))
      ∙ ap (λ (t : List ℕ). t ++ others)
          (drop-drop (s.slot_offset * 2) (frames * 2) own ∙ ap (λ (k : ℕ). drop k own) e)

  rest_after :
      drop (frames * 2) (left_samples s) ≡ drop ((s.output_frame_offset + frames) * 2) before
  rest_after =
      let e : s.output_frame_offset * 2 + frames * 2 ≡ (s.output_frame_offset + frames) * 2 =
        omega arith in
      ap (drop (frames * 2)) b.rest
      ∙ drop-drop (s.output_frame_offset * 2) (frames * 2) before
      ∙ ap (λ (k : ℕ). drop k before) e

  enough_after : (s.output_frame_offset + frames) * 2 ≤ length before
  enough_after =
      let (_, a, _) = frames_bounds in
      let e = b.enough in
      omega (
        arith,
        chunk_size,
        ap (length {A = ℕ}) chunk_taken,
        length-take (frames * 2) (drop (s.output_frame_offset * 2) before),
        length-drop (s.output_frame_offset * 2) before,
      )

  abbrev copied : Rendering
  copied = copy_round s frames

  moved : add_u32 s.output_frame_offset frames ≡ s.output_frame_offset + frames
  moved = let (_, _, a) = frames_bounds in let w = b.width in omega arith

  slot_moved : add_u32 s.slot_offset frames ≡ s.slot_offset + frames
  slot_moved = let (_, a, _) = frames_bounds in omega arith

  copied-output :
      copied.output
      ≡ take ((s.output_frame_offset + frames) * 2) before
        ++ replicate ((n - (s.output_frame_offset + frames)) * 2) 0
  unfolding copy_round
  copied-output =
      let (_, _, a) = frames_bounds in
      ap (λ (t : List ℕ). copy_into t (s.output_frame_offset * 2) (copied_samples s frames))
        b.output
      ∙ copy_behind before (copied_samples s frames) s.output_frame_offset frames n b.enough a
          chunk_taken chunk_size

  counted_after : copied.result.queue_frames ≡ s.output_frame_offset + frames
  unfolding copy_round
  counted_after = let c = b.counted in omega (arith, moved)

  within_slot :
      s.slot_offset + frames ≢ 960
      → samples_from s.queue.slots s.read (left_count s) (add_u32 s.slot_offset frames)
        ≡ drop ((s.output_frame_offset + frames) * 2) before
  within_slot ne =
      let (_, a, _) = frames_bounds in
      let e : left_count s ≡ suc (left_count s - 1) = omega arith in
      ap (λ (k : ℕ). samples_from s.queue.slots s.read (left_count s) k) slot_moved
      ∙ ap (λ (k : ℕ). samples_from s.queue.slots s.read k (s.slot_offset + frames)) e
      ∙ drop-append_le ((s.slot_offset + frames) * 2) own others (omega (arith, own_whole))
      ∙ sym left_after
      ∙ rest_after

  next_count : sub_u64 s.queue.write_position (add_u64 s.read 1) ≡ left_count s - 1
  next_count = let a = b.write_width in let c = b.read_width in omega arith

  at_end :
      s.slot_offset + frames ≡ 960
      → samples_from s.queue.slots
          (add_u64 s.read 1)
          (sub_u64 s.queue.write_position (add_u64 s.read 1))
          0
        ≡ drop ((s.output_frame_offset + frames) * 2) before
  at_end e =
      let r = b.read_width in
      let used : drop ((s.slot_offset + frames) * 2) own ≡ [] =
        drop_all ((s.slot_offset + frames) * 2) own (omega (arith, own_whole)) in
      ap (λ (k : ℕ). samples_from s.queue.slots (add_u64 s.read 1) k 0) next_count
      ∙ ap flat (
          window-congruent 32 empty_slot s.queue.slots (add_u64 s.read 1) (s.read + 1)
            (left_count s - 1) (λ i lt. omega arith))
      ∙ ap (λ (t : List ℕ). t ++ others) (sym used)
      ∙ sym left_after
      ∙ rest_after

  -- The round keeps what holds between two rounds.
  pub copy_round-Between : s.slot_offset + frames ≢ 960 → Between n before copied
  unfolding copy_round
  copy_round-Between ne = record {
    slot_count = b.slot_count;
    whole = b.whole;
    write_width = b.write_width;
    read_width = b.read_width;
    few = b.few;
    offset = let (_, a, _) = frames_bounds in omega (arith, slot_moved);
    started = λ e. absurd (some_left e);
    published = b.published;
    width = b.width;
    within = let (_, _, a) = frames_bounds in omega (arith, moved);
    no_error = b.no_error;
    counted = omega (arith, counted_after, moved);
    enough = omega (arith, enough_after, moved);
    output = rw moved copied-output;
    rest = within_slot ne ∙ ap (λ (k : ℕ). drop (k * 2) before) (sym moved);
  }

  pub release_slot-Between :
      s.slot_offset + frames ≡ 960 → Between n before (release_slot copied (current_slot s))
  unfolding release_slot copy_round
  release_slot-Between e = record {
    slot_count = b.slot_count;
    whole = b.whole;
    write_width = b.write_width;
    read_width = omega arith;
    few = let a = b.few in omega (arith, next_count);
    offset = omega arith;
    started = λ _. refl;
    published = refl;
    width = b.width;
    within = let (_, _, a) = frames_bounds in omega (arith, moved);
    no_error = b.no_error;
    counted = omega (arith, counted_after, moved);
    enough = omega (arith, enough_after, moved);
    output = rw moved copied-output;
    rest = at_end e ∙ ap (λ (k : ℕ). drop (k * 2) before) (sym moved);
  }

  slot_of_copied : copied.slot_offset ≡ add_u32 s.slot_offset frames
  unfolding copy_round
  slot_of_copied = refl

  pub render_round-Between : Between n before (render_round n s)
  unfolding render_round
  render_round-Between = elim (Bool-cases (copied.slot_offset != 960)) [
    | inl inside ↦ rw inside (copy_round-Between (ground (arith, slot_of_copied, slot_moved)))
    | inr end ↦ rw end (release_slot-Between (ground (arith, slot_of_copied, slot_moved)))
  ]

  -- A frame at least is copied.
  pub render_round-moves : (render_round n s).output_frame_offset ≡ s.output_frame_offset + frames
  unfolding render_round copy_round release_slot
  render_round-moves = ground (arith, moved)

  pub frames_pos : 1 ≤ frames
  frames_pos = frames_bounds.0
