-- ===== src/Playback/PcmQueue/Control.antt =====
-- pcm_queue.cpp: `discard_pending`, `reset` and `snapshot`.
use wiretone.Prelude.{ℕ, ◌*◌, ◌%◌, ◌^◌, ◌!=◌, if◌then◌else◌, min}
use wiretone.Playback.PcmQueue.Types.{
  logical_pcm_frame_frames, pcm_playback_queue_capacity, PcmPlaybackDiscardResult,
  PcmPlaybackQueueSnapshot, PcmPlaybackQueue, add_u64, sub_u64,
}
use wiretone.Playback.PcmQueue.Enqueue.{queued_count}

unfoldable pub discard_pending : PcmPlaybackQueue → PcmPlaybackDiscardResult × PcmPlaybackQueue
discard_pending q = (
  record { discarded_logical_frames = logical; discarded_partial_frames = partial },
  record q {
    read_offset_frames = 0;
    read_position = q.write_position;
    discarded_logical_frames = add_u64 q.discarded_logical_frames logical;
    discarded_partial_frames = add_u64 q.discarded_partial_frames partial;
  },
)
  where
    logical : ℕ
    logical = min (queued_count q) pcm_playback_queue_capacity % 2 ^ 32

    partial : ℕ
    partial = if q.read_offset_frames != 0 then 1 else 0

-- The slots keep what they hold.
unfoldable pub reset : PcmPlaybackQueue → PcmPlaybackQueue
reset q = record q {
  write_position = 0;
  read_position = 0;
  read_offset_frames = 0;
  enqueued_logical_frames = 0;
  consumed_logical_frames = 0;
  queue_output_frames = 0;
  silence_output_frames = 0;
  underrun_callbacks = 0;
  dropped_logical_frames = 0;
  discarded_logical_frames = 0;
  discarded_partial_frames = 0;
  discontinuity_logical_frames = 0;
  last_enqueued_sequence = 0;
  last_consumed_sequence = 0;
  last_consumed_flags = 0;
}

unfoldable pub snapshot : PcmPlaybackQueue → PcmPlaybackQueueSnapshot
snapshot q = record {
  queued_logical_frames = queued % 2 ^ 32;
  queued_pcm_frames =
      if queued != 0
      then sub_u64 (queued * logical_pcm_frame_frames % 2 ^ 64) q.read_offset_frames % 2 ^ 32
      else 0;
  enqueued_logical_frames = q.enqueued_logical_frames;
  consumed_logical_frames = q.consumed_logical_frames;
  queue_output_frames = q.queue_output_frames;
  silence_output_frames = q.silence_output_frames;
  underrun_callbacks = q.underrun_callbacks;
  dropped_logical_frames = q.dropped_logical_frames;
  discarded_logical_frames = q.discarded_logical_frames;
  discarded_partial_frames = q.discarded_partial_frames;
  discontinuity_logical_frames = q.discontinuity_logical_frames;
  last_enqueued_sequence = q.last_enqueued_sequence;
  last_consumed_sequence = q.last_consumed_sequence;
  last_consumed_flags = q.last_consumed_flags;
}
  where
    queued : ℕ
    queued = min (queued_count q) pcm_playback_queue_capacity
