-- ===== src/Playback/PcmQueue/Between.antt =====
-- pcm_queue.cpp: what holds between two rounds of the loop of `render`.
use wiretone.Prelude.{
  ℕ, ◌+◌, ◌-◌, ◌*◌, ◌^◌, ◌≤◌, ◌<◌, ◌≡◌, sym, ap, ◌∙◌, List, ◌++◌, arith, append_assoc, All, length,
  length-take, length-replicate, take, drop, replicate, take-add, drop-replicate, copy_into,
  copy_into_zero, copy_into-append,
}
use wiretone.Playback.PcmQueue.Types.{PcmPlaybackQueueError, sub_u64}
use wiretone.Playback.PcmQueue.Render.{Rendering}
use wiretone.Playback.PcmQueue.Pending.{samples_from, HasSamples}

-- The slots that the loop has still to read.
abbrev pub left_count : Rendering → ℕ
left_count s = sub_u64 s.queue.write_position s.read

-- The samples that the loop has still to read.
abbrev pub left_samples : Rendering → List ℕ
left_samples s = samples_from s.queue.slots s.read (left_count s) s.slot_offset

-- Between two rounds of a call for `n` frames, with the samples `before` waiting at its start: the
-- output has the first of them and then silence, and the others wait.
pub record Between (n : ℕ) (before : List ℕ) (s : Rendering) : Type 0 where
  pub slot_count : length s.queue.slots ≡ 32
  pub whole : All HasSamples s.queue.slots
  pub write_width : s.queue.write_position < 2 ^ 64
  pub read_width : s.read < 2 ^ 64
  pub few : left_count s ≤ 32
  pub offset : s.slot_offset < 960
  pub started : left_count s ≡ 0 → s.slot_offset ≡ 0
  pub published : s.queue.read_position ≡ s.read
  pub width : n < 2 ^ 32
  pub within : s.output_frame_offset ≤ n
  pub no_error : s.result.error ≡ PcmPlaybackQueueError.none
  pub counted : s.result.queue_frames ≡ s.output_frame_offset
  pub enough : s.output_frame_offset * 2 ≤ length before
  pub output :
      s.output
      ≡ take (s.output_frame_offset * 2) before ++ replicate ((n - s.output_frame_offset) * 2) 0
  pub rest : left_samples s ≡ drop (s.output_frame_offset * 2) before

-- Where two parts meet, the first is taken and the second copied behind it.
pub copy_behind :
    (before chunk : List ℕ) (o c n : ℕ)
    → o * 2 ≤ length before
    → o + c ≤ n
    → chunk ≡ take (c * 2) (drop (o * 2) before)
    → length chunk ≡ c * 2
    → copy_into (take (o * 2) before ++ replicate ((n - o) * 2) 0) (o * 2) chunk
      ≡ take ((o + c) * 2) before ++ replicate ((n - (o + c)) * 2) 0
copy_behind before chunk o c n enough fits e size =
    let head : List ℕ = take (o * 2) before in
    let zeros : List ℕ = replicate ((n - o) * 2) 0 in
    let whole : (o + c) * 2 ≡ o * 2 + c * 2 = omega arith in
    let less : (n - o) * 2 - length chunk ≡ (n - (o + c)) * 2 = omega arith in
    copy_into-append head zeros chunk (o * 2) (omega (arith, length-take (o * 2) before))
    ∙ ap (◌++◌ head)
        (copy_into_zero zeros chunk (omega (arith, length-replicate {A = ℕ} ((n - o) * 2) 0)))
    ∙ ap (λ (r : List ℕ). head ++ (chunk ++ r))
        (drop-replicate (length chunk) ((n - o) * 2) 0 ∙ ap (λ (k : ℕ). replicate k 0) less)
    ∙ sym (append_assoc head chunk (replicate ((n - (o + c)) * 2) 0))
    ∙ ap (λ (t : List ℕ). t ++ replicate ((n - (o + c)) * 2) 0)
        (ap (◌++◌ head) e
          ∙ sym (take-add (o * 2) (c * 2) before)
          ∙ ap (λ (k : ℕ). take k before) (sym whole))
