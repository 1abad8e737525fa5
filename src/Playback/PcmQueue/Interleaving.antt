-- ===== src/Playback/PcmQueue/Interleaving.antt =====
-- pcm_queue.cpp: `enqueue` by the receiving thread between two rounds of `render`.
use wiretone.Prelude.{
  ℕ, ◌-◌, ◌*◌, ◌^◌, ◌<◌, ◌≡◌, ◌≢◌, sym, ap, ◌∙◌, subst, List, ◌++◌, arith, length-append, drop,
  replicate, take-append_le, drop-append_le,
}
use wiretone.Playback.PcmQueue.Types.{
  PcmPlaybackFrameView, PcmPlaybackQueueError, PcmPlaybackQueue, sub_u64, add_u64,
}
use wiretone.Playback.PcmQueue.Enqueue.{queued_count, store_frame, enqueue}
use wiretone.Playback.PcmQueue.Render.{Rendering}
use wiretone.Playback.PcmQueue.Pending.{samples_from, pending, IsValid}
use wiretone.Playback.PcmQueue.Appending.{
  CanEnqueue, accepts, accepted, enqueue-refused, store_frame-IsValid, store_frame-pending,
}
use wiretone.Playback.PcmQueue.Between.{Between, left_count, left_samples}

-- The round's variables, and the queue after a call of `enqueue`.
abbrev pub interrupt : Rendering → PcmPlaybackFrameView → Rendering
interrupt s frame = record s { queue = (enqueue s.queue frame).1 }

module _ (n : ℕ) (before : List ℕ) (s : Rendering) (b : Between n before s) where
  -- The queue as it would be if the loop ended here.
  abbrev seen : PcmPlaybackQueue
  seen = record (s.queue) { read_offset_frames = s.slot_offset }

  same_count : queued_count seen ≡ left_count s
  same_count = ap (sub_u64 s.queue.write_position) b.published

  seen-IsValid : IsValid seen
  seen-IsValid =
      let r = b.read_width in
      let p = b.published in
      record {
        slot_count = b.slot_count;
        whole = b.whole;
        write_width = b.write_width;
        read_width = omega arith;
        few = let f = b.few in omega (arith, same_count);
        offset = b.offset;
        started = λ e. b.started (sym same_count ∙ e);
      }

  seen-pending : pending seen ≡ left_samples s
  seen-pending =
      ap (λ (k : ℕ). samples_from s.queue.slots k (sub_u64 s.queue.write_position k) s.slot_offset)
        b.published

  module _ (frame : PcmPlaybackFrameView) (can : CanEnqueue s.queue frame) where
    abbrev stored : Rendering
    stored = record s { queue = store_frame s.queue frame }

    abbrev valid : IsValid (store_frame seen frame)
    valid = store_frame-IsValid seen frame seen-IsValid can.whole can.room

    stored_count : queued_count (store_frame seen frame) ≡ left_count stored
    unfolding store_frame
    stored_count = ap (sub_u64 (add_u64 s.queue.write_position 1)) b.published

    stored_rest : left_samples stored ≡ drop (s.output_frame_offset * 2) (before ++ frame.samples)
    unfolding store_frame
    stored_rest =
        ap
          (λ (k : ℕ).
            samples_from stored.queue.slots k (sub_u64 stored.queue.write_position k) s.slot_offset)
          (sym b.published)
        ∙ store_frame-pending seen frame seen-IsValid can.whole can.room
        ∙ ap (λ (t : List ℕ). t ++ frame.samples) (seen-pending ∙ b.rest)
        ∙ sym (drop-append_le (s.output_frame_offset * 2) before frame.samples b.enough)

    stored-Between : Between n (before ++ frame.samples) stored
    unfolding store_frame
    stored-Between =
        let enough = b.enough in
        record {
          slot_count = valid.slot_count;
          whole = valid.whole;
          write_width = valid.write_width;
          read_width = b.read_width;
          few = let f = valid.few in omega (arith, stored_count);
          offset = b.offset;
          started = λ e. valid.started (stored_count ∙ e);
          published = b.published;
          width = b.width;
          within = b.within;
          no_error = b.no_error;
          counted = b.counted;
          enough = omega (arith, length-append before frame.samples);
          output =
              b.output
              ∙ ap (λ (t : List ℕ). t ++ replicate ((n - s.output_frame_offset) * 2) 0)
                  (sym (take-append_le (s.output_frame_offset * 2) before frame.samples b.enough));
          rest = stored_rest;
        }

  dropped-Between :
      (d : ℕ)
      → Between n before (record s { queue = record (s.queue) { dropped_logical_frames = d } })
  dropped-Between d = record {
    slot_count = b.slot_count;
    whole = b.whole;
    write_width = b.write_width;
    read_width = b.read_width;
    few = b.few;
    offset = b.offset;
    started = b.started;
    published = b.published;
    width = b.width;
    within = b.within;
    no_error = b.no_error;
    counted = b.counted;
    enough = b.enough;
    output = b.output;
    rest = b.rest;
  }

-- A frame that is accepted waits behind the others.
pub accepted-Between :
    (n : ℕ) (before : List ℕ) (s : Rendering) (frame : PcmPlaybackFrameView)
    → frame.flags < 2 ^ 32
    → Between n before s
    → (enqueue s.queue frame).0.error ≡ PcmPlaybackQueueError.none
    → Between n (before ++ frame.samples) (interrupt s frame)
accepted-Between n before s frame w b taken =
    let can = accepts s.queue frame w taken in
    subst (λ (q : PcmPlaybackQueue). Between n (before ++ frame.samples) (record s { queue = q }))
      (sym (accepted s.queue frame w can).1) (stored-Between n before s b frame can)

-- A frame that is refused makes no difference to the loop.
pub refused-Between :
    (n : ℕ) (before : List ℕ) (s : Rendering) (frame : PcmPlaybackFrameView)
    → Between n before s
    → (enqueue s.queue frame).0.error ≢ PcmPlaybackQueueError.none
    → Between n before (interrupt s frame)
refused-Between n before s frame b refused =
    subst (λ (q : PcmPlaybackQueue). Between n before (record s { queue = q }))
      (sym (enqueue-refused s.queue frame refused))
      (dropped-Between n before s b (enqueue s.queue frame).1.dropped_logical_frames)
