-- ===== src/Playback/PcmQueue/Playing.antt =====
-- pcm_queue.cpp: `render` plays the samples that wait, and silence after them.
use wiretone.Prelude.{
  ℕ, zero, suc, ◌+◌, ◌-◌, ◌*◌, ◌/◌, ◌^◌, ◌≤◌, ◌<◌, ◌≡◌, ◌≢◌, refl, sym, ap, ◌∙◌, ◌⊎◌, inl, inr,
  false, Bool-cases, List, ◌++◌, arith, append-nil, min, length, length-drop, take, drop, replicate,
  take_all, drop_all, take-append_le, take-append_ge, take-replicate, fill_n-eq-replicate, ltb,
  ◌==◌, ◌!=◌,
}
use wiretone.Playback.PcmQueue.Types.{PcmPlaybackQueueError, PcmPlaybackQueue, sub_u64}
use wiretone.Playback.PcmQueue.Render.{
  Rendering, render_round, render_loop, begin_render, finish_render, render,
}
use wiretone.Playback.PcmQueue.Pending.{pending, IsValid, samples_from, length-samples_from}
use wiretone.Playback.PcmQueue.Round.{frames_pos, render_round-Between, render_round-moves}
use wiretone.Playback.PcmQueue.Between.{Between, left_count}

-- The loop has ended by its test: the output is full, or nothing is left.
pub record Ended (n : ℕ) (before : List ℕ) (s : Rendering) : Type 0 where
  pub between : Between n before s
  pub full_or_empty : (s.output_frame_offset ≡ n) ⊎ (left_count s ≡ 0)

-- A fuel of the frames still to render is enough.
pub render_loop-Ended :
    (fuel n : ℕ) (before : List ℕ) (s : Rendering)
    → Between n before s
    → n ≤ fuel + s.output_frame_offset
    → Ended n before (render_loop fuel n s)
unfolding render_loop
render_loop-Ended zero n before s b enough =
    let w = b.within in record { between = b; full_or_empty = inl (omega arith) }
render_loop-Ended (suc fuel) n before s b enough = elim (Bool-cases (ltb s.output_frame_offset n)) [
  | inr full ↦
      let w = b.within in rw full (record { between = b; full_or_empty = inl (ground arith) })
  | inl more ↦ elim (Bool-cases (s.read != s.queue.write_position)) [
    | inr empty ↦
        let r = b.read_width in
        rw (more, empty) (record { between = b; full_or_empty = inr (ground arith) })
    | inl left ↦
        let lt : s.output_frame_offset < n = ground arith in
        let some_left : left_count s ≢ 0 =
          (let r = b.read_width in let w = b.write_width in λ e. ground arith) in
        rw (more, left)
          (render_loop-Ended fuel n before (render_round n s)
            (render_round-Between n before s b lt some_left)
            (omega (
              arith,
              render_round-moves n before s b lt some_left,
              frames_pos n before s b lt some_left,
            )))
  ]
]

pub begin_render-Between :
    (q : PcmPlaybackQueue) (output : List ℕ) (n : ℕ)
    → IsValid q
    → n < 2 ^ 32
    → length output ≡ n * 2
    → Between n (pending q) (begin_render q output n)
begin_render-Between q output n v w size = record {
  slot_count = v.slot_count;
  whole = v.whole;
  write_width = v.write_width;
  read_width = v.read_width;
  few = v.few;
  offset = v.offset;
  started = v.started;
  published = refl;
  width = w;
  within = omega arith;
  no_error = refl;
  counted = refl;
  enough = omega arith;
  output =
      fill_n-eq-replicate output (length output) 0 (omega arith)
      ∙ ap (λ (t : List ℕ). replicate (length output) 0 ++ t)
          (drop_all (length output) output (omega arith))
      ∙ append-nil (replicate (length output) 0)
      ∙ ap (λ (k : ℕ). replicate k 0) (omega arith);
  rest = refl;
}

-- What a call for `n` frames leaves: the output has the samples that waited, as far as they go, and
-- silence after them; the others still wait.
pub record Renders (n : ℕ) (before : List ℕ) (q : PcmPlaybackQueue) (output : List ℕ)
    (queue_frames silence_frames : ℕ) : Type 0 where
  pub output_samples : output ≡ take (n * 2) (before ++ replicate (n * 2) 0)
  pub waiting : pending q ≡ drop (n * 2) before
  pub played : queue_frames ≡ min n (length before / 2)
  pub silent : silence_frames ≡ n - queue_frames
  pub valid : IsValid q

-- With the output full, or all played, the output is what it should be, and so are the others.
played_output :
    (before : List ℕ) (o n : ℕ)
    → o ≤ n
    → (o ≡ n) × (o * 2 ≤ length before) ⊎ (length before ≡ o * 2)
    → take (o * 2) before ++ replicate ((n - o) * 2) 0
      ≡ take (n * 2) (before ++ replicate (n * 2) 0)
played_output before o n le (inl (full, enough)) =
    let none_more : (n - o) * 2 ≡ 0 = omega arith in
    ap (λ (k : ℕ). take (o * 2) before ++ replicate k 0) none_more
    ∙ append-nil (take (o * 2) before)
    ∙ ap (λ (k : ℕ). take (k * 2) before) full
    ∙ sym (take-append_le (n * 2) before (replicate (n * 2) 0) (omega arith))
played_output before o n le (inr all) =
    let more : n * 2 - length before ≡ (n - o) * 2 = omega arith in
    ap (λ (t : List ℕ). t ++ replicate ((n - o) * 2) 0) (take_all (o * 2) before (omega arith))
    ∙ ap (λ (k : ℕ). before ++ replicate k 0) (sym more)
    ∙ ap (◌++◌ before) (sym (take-replicate (n * 2 - length before) (n * 2) 0 (omega arith)))
    ∙ sym (take-append_ge (n * 2) before (replicate (n * 2) 0) (omega arith))

played_rest :
    (before : List ℕ) (o n : ℕ)
    → o ≤ n
    → (o ≡ n) × (o * 2 ≤ length before) ⊎ (length before ≡ o * 2)
    → drop (o * 2) before ≡ drop (n * 2) before
played_rest before o n le (inl (full, _)) = ap (λ (k : ℕ). drop (k * 2) before) full
played_rest before o n le (inr all) =
    drop_all (o * 2) before (omega arith) ∙ sym (drop_all (n * 2) before (omega arith))

module _ (n : ℕ) (before : List ℕ) (s : Rendering) (h : Ended n before s) where
  abbrev o : ℕ
  o = s.output_frame_offset

  -- Where nothing is left, all that waited has been played.
  all_played : left_count s ≡ 0 → length before ≡ o * 2
  all_played none_left =
      let enough = h.between.enough in
      omega (
        arith,
        ap (length {A = ℕ}) h.between.rest,
        length-drop (o * 2) before,
        length-samples_from s.queue.slots s.read (left_count s) s.slot_offset h.between.whole,
      )

  full_or_all : (o ≡ n) × (o * 2 ≤ length before) ⊎ (length before ≡ o * 2)
  full_or_all = elim h.full_or_empty [
    | inl full ↦ inl (full, h.between.enough)
    | inr empty ↦ inr (all_played empty)
  ]

  counted : o ≡ min n (length before / 2)
  counted =
      let w = h.between.within in let f = full_or_all in let e = h.between.enough in ground arith

  finish_render-error : (finish_render n s).0.error ≡ PcmPlaybackQueueError.none
  unfolding finish_render
  finish_render-error = h.between.no_error

  finish_render-Renders :
      Renders n before
        (finish_render n s).1
        s.output
        (finish_render n s).0.queue_frames
        (finish_render n s).0.silence_frames
  unfolding finish_render
  finish_render-Renders =
      let within = h.between.within in
      let c = h.between.counted in
      record {
        output_samples = h.between.output ∙ played_output before o n within full_or_all;
        waiting =
            ap
              (λ (k : ℕ).
                samples_from s.queue.slots k (sub_u64 s.queue.write_position k) s.slot_offset)
              h.between.published
            ∙ h.between.rest
            ∙ played_rest before o n within full_or_all;
        played = c ∙ counted;
        silent = let w = h.between.width in omega arith;
        valid =
            let p = h.between.published in
            record {
              slot_count = h.between.slot_count;
              whole = h.between.whole;
              write_width = h.between.write_width;
              read_width = let r = h.between.read_width in omega arith;
              few = rw p (h.between.few);
              offset = h.between.offset;
              started = rw p (h.between.started);
            };
      }

-- A call for `n` frames, with an output of that size, succeeds on a valid queue and leaves it
-- valid. The output gets the first `2 n` samples that waited, and zeros behind them where there
-- were fewer; the others still wait. The result counts the frames of both.
pub render-Renders :
    (q : PcmPlaybackQueue) (output : List ℕ) (n : ℕ)
    → IsValid q
    → n ≢ 0
    → n < 2 ^ 32
    → length output ≡ n * 2
    → ((render q output n).0.error ≡ PcmPlaybackQueueError.none)
      × Renders n
          (pending q)
          (render q output n).2
          (render q output n).1
          (render q output n).0.queue_frames
          (render q output n).0.silence_frames
unfolding render
render-Renders q output n v some_frames w size =
    let zero_test : (n == 0) ≡ false = ground arith in
    let size_test : (length output != n * 2) ≡ false = ground arith in
    let ended =
      render_loop-Ended n n (pending q) (begin_render q output n)
        (begin_render-Between q output n v w size) (omega arith) in
    let done = render_loop n n (begin_render q output n) in
    rw (zero_test, size_test)
      (finish_render-error n (pending q) done ended, finish_render-Renders n (pending q) done ended)
