-- ===== src/Playback/PcmQueue/Enqueue.antt =====
-- pcm_queue.cpp: `enqueue`, the call of the thread that receives.
use wiretone.Prelude.{
  ℕ, ◌%◌, ◌^◌, leb, ◌==◌, ◌!=◌, if◌then◌else◌, has_flag, length, get_or, set, copy_into,
}
use wiretone.Playback.PcmQueue.Types.{
  logical_pcm_frame_samples, pcm_playback_queue_capacity, pcm_frame_unknown_flag_mask,
  PcmPlaybackFrameView, PcmPlaybackQueueError, PcmPlaybackEnqueueResult, Slot, empty_slot,
  PcmPlaybackQueue, add_u64, sub_u64,
}

-- The frame is copied over the slot's samples.
unfoldable pub write_slot : Slot → PcmPlaybackFrameView → Slot
write_slot slot frame = record {
  samples = copy_into slot.samples 0 frame.samples;
  sequence_number = frame.sequence_number;
  flags = frame.flags;
}

-- The stores of a frame that has room.
unfoldable pub store_frame : PcmPlaybackQueue → PcmPlaybackFrameView → PcmPlaybackQueue
unfolding write_slot
store_frame q frame = record q {
  slots = set q.slots index (write_slot (get_or q.slots index empty_slot) frame);
  last_enqueued_sequence = frame.sequence_number;
  enqueued_logical_frames = add_u64 q.enqueued_logical_frames 1;
  write_position = add_u64 q.write_position 1;
}
  where
    index : ℕ
    index = q.write_position % pcm_playback_queue_capacity

-- `write - read`
abbrev pub queued_count : PcmPlaybackQueue → ℕ
queued_count q = sub_u64 q.write_position q.read_position

unfoldable pub enqueue :
    PcmPlaybackQueue → PcmPlaybackFrameView → PcmPlaybackEnqueueResult × PcmPlaybackQueue
enqueue q frame =
    if length frame.samples != logical_pcm_frame_samples
    then (refused PcmPlaybackQueueError.invalid_sample_count, q)
    else if frame.sequence_number == 0
    then (refused PcmPlaybackQueueError.zero_sequence_number, q)
    else if has_flag frame.flags pcm_frame_unknown_flag_mask
    then (refused PcmPlaybackQueueError.unknown_flags, q)
    else if leb pcm_playback_queue_capacity (queued_count q)
    then (
      record {
        error = PcmPlaybackQueueError.queue_full;
        queued_logical_frames = pcm_playback_queue_capacity;
      },
      record q { dropped_logical_frames = add_u64 q.dropped_logical_frames 1 },
    )
    else (
      record {
        error = PcmPlaybackQueueError.none;
        queued_logical_frames = add_u64 (queued_count q) 1 % 2 ^ 32;
      },
      store_frame q frame,
    )
  where
    refused : PcmPlaybackQueueError → PcmPlaybackEnqueueResult
    refused e = record { error = e; queued_logical_frames = 0 }
