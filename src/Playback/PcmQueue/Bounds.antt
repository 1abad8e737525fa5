-- ===== src/Playback/PcmQueue/Bounds.antt =====
-- pcm_queue.cpp: the loop of `render` ends, and copies within the slot and the output.
use wiretone.Prelude.{
  ◌++◌, [], drop, append-nil, append_assoc, subst, sym, ℕ, ◌+◌, ◌*◌, ◌^◌, ◌≤◌, ◌<◌, ◌≡◌, ◌≢◌, ap,
  inl, inr, ◌&&◌, false, List, arith, length, length-append, length-take, length-replicate, take,
  replicate, ◌-◌, ltb, ◌!=◌,
}
use wiretone.Playback.PcmQueue.Enqueue.{enqueue}
use wiretone.Playback.PcmQueue.Interleaving.{interrupt, accepted-Between, refused-Between}
use wiretone.Playback.PcmQueue.Types.{PcmPlaybackFrameView, PcmPlaybackQueueError, PcmPlaybackQueue}
use wiretone.Playback.PcmQueue.Render.{
  Rendering, copy_frames, current_slot, render_round, render_loop, begin_render,
}
use wiretone.Playback.PcmQueue.Pending.{pending, IsValid}
use wiretone.Playback.PcmQueue.Round.{frames_bounds, own_whole, render_round-Between}
use wiretone.Playback.PcmQueue.Between.{left_samples, Between, left_count}
use wiretone.Playback.PcmQueue.Playing.{render_loop-Ended, begin_render-Between}

-- The test of the loop.
pub record GoesOn (n : ℕ) (s : Rendering) : Type 0 where
  pub not_full : s.output_frame_offset < n
  pub not_empty : s.read ≢ s.queue.write_position

-- The states in which the test of the loop is made, with the samples that have been enqueued since
-- the start: between two rounds the other thread may call `enqueue`.
pub data Rounds (n : ℕ) (s : Rendering) : List ℕ → Rendering → Type 0 where
  start : Rounds n s [] s
  next :
      {xs : List ℕ} {t : Rendering}
      → Rounds n s xs t
      → GoesOn n t
      → Rounds n s xs (render_round n t)
  accepting :
      {xs : List ℕ} {t : Rendering} (frame : PcmPlaybackFrameView)
      → Rounds n s xs t
      → frame.flags < 2 ^ 32
      → (enqueue t.queue frame).0.error ≡ PcmPlaybackQueueError.none
      → Rounds n s (xs ++ frame.samples) (interrupt t frame)
  refusing :
      {xs : List ℕ} {t : Rendering} (frame : PcmPlaybackFrameView)
      → Rounds n s xs t
      → (enqueue t.queue frame).0.error ≢ PcmPlaybackQueueError.none
      → Rounds n s xs (interrupt t frame)

-- A round reads within the slot and writes within the output, and moves a frame at least.
pub record CopiesWithin (n : ℕ) (s : Rendering) : Type 0 where
  pub reads : (s.slot_offset + copy_frames n s) * 2 ≤ length (current_slot s).samples
  pub writes : (s.output_frame_offset + copy_frames n s) * 2 ≤ length s.output
  pub moves : 1 ≤ copy_frames n s

something_left :
    (n : ℕ) (before : List ℕ) (s : Rendering) → Between n before s → GoesOn n s → left_count s ≢ 0
something_left n before s b g =
    let r = b.read_width in let w = b.write_width in let ne = g.not_empty in λ e. ne (omega arith)

Rounds-Between :
    (n : ℕ) (before : List ℕ) (s : Rendering) (xs : List ℕ) (t : Rendering)
    → Between n before s
    → Rounds n s xs t
    → Between n (before ++ xs) t
Rounds-Between n before s xs t b start =
    subst (λ (w : List ℕ). Between n w s) (sym (append-nil before)) b
Rounds-Between n before s xs t b (next {t = u} rounds g) =
    let c = Rounds-Between n before s xs u b rounds in
    render_round-Between n (before ++ xs) u c g.not_full (something_left n (before ++ xs) u c g)
Rounds-Between n before s xs t b (accepting {xs = ys} {t = u} frame rounds w taken) =
    subst (λ (z : List ℕ). Between n z (interrupt u frame)) (append_assoc before ys frame.samples)
      (accepted-Between n (before ++ ys) u frame w (Rounds-Between n before s ys u b rounds) taken)
Rounds-Between n before s xs t b (refusing {t = u} frame rounds refused) =
    refused-Between n (before ++ xs) u frame (Rounds-Between n before s xs u b rounds) refused

copies_within :
    (n : ℕ) (before : List ℕ) (s : Rendering) → Between n before s → GoesOn n s → CopiesWithin n s
copies_within n before s b g =
    let left = something_left n before s b g in
    let (some, source, target) = frames_bounds n before s b g.not_full left in
    let e = b.enough in
    record {
      reads = omega (arith, own_whole n before s b g.not_full left);
      writes = omega (
        arith,
        ap (length {A = ℕ}) b.output,
        length-append (take (s.output_frame_offset * 2) before)
            (replicate ((n - s.output_frame_offset) * 2) 0),
        length-take (s.output_frame_offset * 2) before,
        length-replicate {A = ℕ} ((n - s.output_frame_offset) * 2) 0,
      );
      moves = some;
    }

-- On a valid queue, with an output of `2 n` samples, every round of the loop copies from within the
-- slot that it reads to within the output, a frame at least, also when the other thread enqueues
-- between the rounds.
pub Rounds-CopiesWithin :
    (q : PcmPlaybackQueue) (output xs : List ℕ) (n : ℕ) (s : Rendering)
    → IsValid q
    → n < 2 ^ 32
    → length output ≡ n * 2
    → Rounds n (begin_render q output n) xs s
    → GoesOn n s
    → CopiesWithin n s
Rounds-CopiesWithin q output xs n s v w size rounds g =
    copies_within n (pending q ++ xs) s
      (Rounds-Between n (pending q) (begin_render q output n) xs s
        (begin_render-Between q output n v w size) rounds)
      g

-- Whenever the loop's test is made, with the other thread enqueuing between the rounds, the output
-- has the first of the samples that waited and of those enqueued since, in order, and then zeros;
-- the others are left to read.
pub Rounds-output :
    (q : PcmPlaybackQueue) (output xs : List ℕ) (n : ℕ) (s : Rendering)
    → IsValid q
    → n < 2 ^ 32
    → length output ≡ n * 2
    → Rounds n (begin_render q output n) xs s
    → (s.output
        ≡ take (s.output_frame_offset * 2) (pending q ++ xs)
          ++ replicate ((n - s.output_frame_offset) * 2) 0)
      × (left_samples s ≡ drop (s.output_frame_offset * 2) (pending q ++ xs))
Rounds-output q output xs n s v w size rounds =
    let b =
      Rounds-Between n (pending q) (begin_render q output n) xs s
        (begin_render-Between q output n v w size) rounds in
    (b.output, b.rest)

-- On a valid queue, with an output of `2 n` samples, the loop has ended by its own test within `n`
-- rounds.
pub render_loop-stops :
    (q : PcmPlaybackQueue) (output : List ℕ) (n : ℕ)
    → IsValid q
    → n < 2 ^ 32
    → length output ≡ n * 2
    → (ltb (render_loop n n (begin_render q output n)).output_frame_offset n
        && (render_loop n n (begin_render q output n)).read
          != (render_loop n n (begin_render q output n)).queue.write_position)
      ≡ false
render_loop-stops q output n v w size =
    let s = render_loop n n (begin_render q output n) in
    let ended =
      render_loop-Ended n n (pending q) (begin_render q output n)
        (begin_render-Between q output n v w size) (omega arith) in
    let r = ended.between.read_width in
    let p = ended.between.write_width in
    elim ended.full_or_empty [ inl full ↦ ground arith | inr empty ↦ ground arith ]
