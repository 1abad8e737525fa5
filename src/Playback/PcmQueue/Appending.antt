-- ===== src/Playback/PcmQueue/Appending.antt =====
-- pcm_queue.cpp: `enqueue` puts a frame's samples behind those that wait.
use wiretone.Prelude.{
  ℕ, suc, ◌+◌, ◌*◌, ◌%◌, ◌^◌, ◌≤◌, ◌<◌, ◌≡◌, ◌≢◌, ◌↔◌, ap, ◌∙◌, List, [], ◌∷◌, ◌++◌, arith,
  append-nil, length, length-set, get_or, set, drop, drop-append_le, copy_into_zero, drop_all,
  window, window-insert, All-get_or, All-set, bit_and_above_one,
}
use wiretone.Playback.PcmQueue.Types.{
  PcmPlaybackFrameView, PcmPlaybackQueueError, Slot, empty_slot, PcmPlaybackQueue, add_u64, sub_u64,
}
use wiretone.Playback.PcmQueue.Enqueue.{queued_count, write_slot, store_frame, enqueue}
use wiretone.Playback.PcmQueue.Pending.{
  flat, samples_from, pending, HasSamples, IsValid, empty_slot-HasSamples, flat-append,
  length-flat-window,
}

-- What `enqueue` wants of a frame, and of the queue.
pub record CanEnqueue (q : PcmPlaybackQueue) (frame : PcmPlaybackFrameView) : Type 0 where
  pub whole : length frame.samples ≡ 1920
  pub numbered : frame.sequence_number ≢ 0
  pub flags : frame.flags < 2
  pub room : queued_count q < 32

-- Copied over a whole slot, a whole frame is all that the slot holds.
write_slot-samples :
    (slot : Slot) (frame : PcmPlaybackFrameView)
    → HasSamples slot
    → length frame.samples ≡ 1920
    → (write_slot slot frame).samples ≡ frame.samples
unfolding write_slot
write_slot-samples slot frame own whole =
    copy_into_zero slot.samples frame.samples (omega arith)
    ∙ rw (drop_all (length frame.samples) slot.samples (omega arith)) (append-nil frame.samples)

module _ (q : PcmPlaybackQueue) (frame : PcmPlaybackFrameView) (v : IsValid q)
    (whole : length frame.samples ≡ 1920) (room : queued_count q < 32) where
  abbrev index : ℕ
  index = q.write_position % 32

  abbrev written : Slot
  written = write_slot (get_or q.slots index empty_slot) frame

  written-samples : written.samples ≡ frame.samples
  written-samples =
      write_slot-samples (get_or q.slots index empty_slot) frame
        (All-get_or HasSamples q.slots index empty_slot v.whole empty_slot-HasSamples) whole

  abbrev next_count : ℕ
  next_count = queued_count (store_frame q frame)

  count_up : sub_u64 (add_u64 q.write_position 1) q.read_position ≡ suc (queued_count q)
  count_up = let a = v.write_width in let b = v.read_width in omega arith

  pub store_frame-IsValid : IsValid (store_frame q frame)
  unfolding store_frame
  store_frame-IsValid = record {
    slot_count = length-set q.slots index written ∙ v.slot_count;
    whole = All-set HasSamples q.slots index written v.whole (rw written-samples whole);
    write_width = omega arith;
    read_width = v.read_width;
    few = omega (arith, count_up);
    offset = v.offset;
    started = λ none. absurd (omega (arith, count_up));
  }

  apart : (i : ℕ) → i < queued_count q → index ≢ (q.read_position + i) % 32
  apart i lt e = let a = v.write_width in let b = v.read_width in omega arith

  inserted :
      window 32 empty_slot (set q.slots index written) q.read_position (suc (queued_count q))
      ≡ window 32 empty_slot q.slots q.read_position (queued_count q) ++ (written ∷ [])
  inserted =
      let a = v.write_width in
      let b = v.read_width in
      let size = v.slot_count in
      window-insert 32 empty_slot q.slots q.read_position (queued_count q) index written
        (omega arith) (omega arith) apart

  played :
      q.read_offset_frames * 2
      ≤ length (flat (window 32 empty_slot q.slots q.read_position (queued_count q)))
  played =
      let offset = v.offset in
      let started = v.started in
      ground (arith, length-flat-window q.slots q.read_position (queued_count q) v.whole)

  appended :
      samples_from
        (set q.slots index written)
        q.read_position
        (sub_u64 (add_u64 q.write_position 1) q.read_position)
        q.read_offset_frames
      ≡ pending q ++ frame.samples
  appended =
      let slots : List Slot = set q.slots index written in
      let before = flat (window 32 empty_slot q.slots q.read_position (queued_count q)) in
      let frame_only : flat (written ∷ []) ≡ frame.samples =
        append-nil written.samples ∙ written-samples in
      ap (λ (n : ℕ). samples_from slots q.read_position n q.read_offset_frames) count_up
      ∙ ap (λ (w : List Slot). drop (q.read_offset_frames * 2) (flat w)) inserted
      ∙ ap (drop (q.read_offset_frames * 2)) (
          flat-append (window 32 empty_slot q.slots q.read_position (queued_count q)) (written ∷ [])
          ∙ ap (◌++◌ before) frame_only)
      ∙ drop-append_le (q.read_offset_frames * 2) before frame.samples played

  pub store_frame-pending : pending (store_frame q frame) ≡ pending q ++ frame.samples
  unfolding store_frame
  store_frame-pending = appended

pub accepts :
    (q : PcmPlaybackQueue) (frame : PcmPlaybackFrameView)
    → frame.flags < 2 ^ 32
    → (enqueue q frame).0.error ≡ PcmPlaybackQueueError.none
    → CanEnqueue q frame
unfolding enqueue
accepts q frame w e = ground (arith, bit_and_above_one frame.flags w)

pub accepted :
    (q : PcmPlaybackQueue) (frame : PcmPlaybackFrameView)
    → frame.flags < 2 ^ 32
    → CanEnqueue q frame
    → ((enqueue q frame).0.error ≡ PcmPlaybackQueueError.none)
      × ((enqueue q frame).1 ≡ store_frame q frame)
unfolding enqueue
accepted q frame w h = ground (arith, bit_and_above_one frame.flags w)

-- `enqueue` succeeds exactly on a frame of 1,920 samples with a sequence number and no unknown
-- flag, while fewer than 32 frames are queued.
pub enqueue-iff-CanEnqueue :
    (q : PcmPlaybackQueue) (frame : PcmPlaybackFrameView)
    → frame.flags < 2 ^ 32
    → ((enqueue q frame).0.error ≡ PcmPlaybackQueueError.none) ↔ CanEnqueue q frame
enqueue-iff-CanEnqueue q frame w = (accepts q frame w, λ h. (accepted q frame w h).0)

-- A frame that a valid queue accepts goes behind the samples that wait, and leaves the queue valid.
pub enqueue-pending :
    (q : PcmPlaybackQueue) (frame : PcmPlaybackFrameView)
    → frame.flags < 2 ^ 32
    → IsValid q
    → (enqueue q frame).0.error ≡ PcmPlaybackQueueError.none
    → IsValid (enqueue q frame).1 × (pending (enqueue q frame).1 ≡ pending q ++ frame.samples)
enqueue-pending q frame w v e =
    let h = accepts q frame w e in
    rw ((accepted q frame w h).1)
      (store_frame-IsValid q frame v h.whole h.room, store_frame-pending q frame v h.whole h.room)

-- A frame that is refused changes nothing but the count of frames dropped from a full queue.
pub enqueue-refused :
    (q : PcmPlaybackQueue) (frame : PcmPlaybackFrameView)
    → (enqueue q frame).0.error ≢ PcmPlaybackQueueError.none
    → (enqueue q frame).1
      ≡ record q { dropped_logical_frames = (enqueue q frame).1.dropped_logical_frames }
unfolding enqueue
enqueue-refused q frame e = ground arith
