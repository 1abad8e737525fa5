-- ===== src/Playback/PcmQueue/Render.antt =====
-- pcm_queue.cpp: `render`, the call of the audio callback.
use wiretone.Prelude.{
  ℕ, zero, suc, ◌*◌, ◌%◌, ◌&&◌, List, ltb, ◌==◌, ◌!=◌, if◌then◌else◌, min, has_flag, length, get_or,
  take, drop, fill_n, copy_into,
}
use wiretone.Playback.PcmQueue.Types.{
  pcm_channel_count, logical_pcm_frame_frames, pcm_playback_queue_capacity,
  pcm_frame_flag_discontinuity, PcmPlaybackQueueError, PcmPlaybackRenderResult, Slot, empty_slot,
  PcmPlaybackQueue, add_u32, sub_u32, add_u64,
}

-- The variables of the loop, and the queue that it stores to.
pub record Rendering : Type 0 where
  pub queue : PcmPlaybackQueue
  pub output : List ℕ
  pub output_frame_offset : ℕ  -- uint32
  pub read : ℕ  -- uint64
  pub slot_offset : ℕ  -- uint32
  pub result : PcmPlaybackRenderResult

-- The frames that one round copies.
unfoldable pub copy_frames : ℕ → Rendering → ℕ
copy_frames frame_count s =
    min (sub_u32 logical_pcm_frame_frames s.slot_offset) (sub_u32 frame_count s.output_frame_offset)

-- The slot that is read, and what a round copies of it.
abbrev pub current_slot : Rendering → Slot
current_slot s = get_or s.queue.slots (s.read % pcm_playback_queue_capacity) empty_slot

unfoldable pub copied_samples : Rendering → ℕ → List ℕ
copied_samples s frames =
    take (frames * pcm_channel_count)
      (drop (s.slot_offset * pcm_channel_count) (current_slot s).samples)

-- The round up to the test of the slot's end.
unfoldable pub copy_round : Rendering → ℕ → Rendering
copy_round s frames = record s {
  output = copy_into s.output (s.output_frame_offset * pcm_channel_count) (copied_samples s frames);
  output_frame_offset = add_u32 s.output_frame_offset frames;
  slot_offset = add_u32 s.slot_offset frames;
  result = record (s.result) { queue_frames = add_u32 s.result.queue_frames frames };
}

-- The slot has been read to its end, and is given back.
unfoldable pub release_slot : Rendering → Slot → Rendering
release_slot s slot = record s {
  read = next;
  slot_offset = 0;
  queue = record (s.queue) {
    consumed_logical_frames = add_u64 s.queue.consumed_logical_frames 1;
    last_consumed_sequence = slot.sequence_number;
    last_consumed_flags = slot.flags;
    discontinuity_logical_frames =
        if has_flag slot.flags pcm_frame_flag_discontinuity
        then add_u64 s.queue.discontinuity_logical_frames 1
        else s.queue.discontinuity_logical_frames;
    read_offset_frames = 0;
    read_position = next;
  };
  result = record (s.result) {
    completed_logical_frames = add_u32 s.result.completed_logical_frames 1;
    last_completed_sequence = slot.sequence_number;
    last_completed_flags = slot.flags;
  };
}
  where
    next : ℕ
    next = add_u64 s.read 1

unfoldable pub render_round : ℕ → Rendering → Rendering
render_round frame_count s =
    if after.slot_offset != logical_pcm_frame_frames
    then after
    else release_slot after (current_slot s)
  where
    after : Rendering
    after = copy_round s (copy_frames frame_count s)

-- The `while` loop. Each round moves a frame at least, so the frame count is enough fuel.
unfoldable pub render_loop : ℕ → ℕ → Rendering → Rendering
render_loop zero frame_count s = s
render_loop (suc fuel) frame_count s =
    let rest = render_loop fuel frame_count (render_round frame_count s) in
    if ltb s.output_frame_offset frame_count && s.read != s.queue.write_position then rest else s

-- The stores after the loop, and the result.
unfoldable pub finish_render : ℕ → Rendering → PcmPlaybackRenderResult × PcmPlaybackQueue
finish_render frame_count s = (
  record (s.result) { silence_frames = silence },
  record (s.queue) {
    read_offset_frames = s.slot_offset;
    queue_output_frames = add_u64 s.queue.queue_output_frames s.result.queue_frames;
    silence_output_frames =
        if silence != 0
        then add_u64 s.queue.silence_output_frames silence
        else s.queue.silence_output_frames;
    underrun_callbacks =
        if silence != 0 then add_u64 s.queue.underrun_callbacks 1 else s.queue.underrun_callbacks;
  },
)
  where
    silence : ℕ
    silence = sub_u32 frame_count s.result.queue_frames

-- `PcmPlaybackRenderResult{}` with the frames that are requested.
abbrev pub requested : ℕ → PcmPlaybackQueueError → PcmPlaybackRenderResult
requested frame_count e = record {
  error = e;
  requested_frames = frame_count;
  queue_frames = 0;
  silence_frames = 0;
  completed_logical_frames = 0;
  last_completed_sequence = 0;
  last_completed_flags = 0;
}

-- The variables before the loop.
abbrev pub begin_render : PcmPlaybackQueue → List ℕ → ℕ → Rendering
begin_render q output frame_count = record {
  queue = q;
  output = fill_n output (length output) 0;
  output_frame_offset = 0;
  read = q.read_position;
  slot_offset = q.read_offset_frames;
  result = requested frame_count PcmPlaybackQueueError.none;
}

-- The result, the output span after the call, and the queue.
unfoldable pub render :
    PcmPlaybackQueue → List ℕ → ℕ → PcmPlaybackRenderResult × List ℕ × PcmPlaybackQueue
render q output frame_count =
    if frame_count == 0
    then (requested frame_count PcmPlaybackQueueError.zero_output_frame_count, output, q)
    else if length output != frame_count * pcm_channel_count
    then (requested frame_count PcmPlaybackQueueError.invalid_output_sample_count, output, q)
    else ((finish_render frame_count done).0, done.output, (finish_render frame_count done).1)
  where
    done : Rendering
    done = render_loop frame_count frame_count (begin_render q output frame_count)
