-- ===== src/Playback/PcmQueue/Types.antt =====
-- pcm_queue.hpp: the limits, the queue's fields and the results. A sample is its 16-bit pattern.
use wiretone.Prelude.{ℕ, ◌+◌, ◌-◌, ◌*◌, ◌%◌, ◌^◌, List, replicate, String}

abbrev pub pcm_channel_count : ℕ
pcm_channel_count = 2

abbrev pub logical_pcm_frame_frames : ℕ
logical_pcm_frame_frames = 960

abbrev pub logical_pcm_frame_samples : ℕ
logical_pcm_frame_samples = logical_pcm_frame_frames * pcm_channel_count

abbrev pub pcm_playback_queue_capacity : ℕ
pcm_playback_queue_capacity = 32

abbrev pub pcm_frame_flag_discontinuity : ℕ
pcm_frame_flag_discontinuity = 1

-- `~pcm_frame_known_flag_mask` on `std::uint32_t`
abbrev pub pcm_frame_unknown_flag_mask : ℕ
pcm_frame_unknown_flag_mask = 0xffff_fffe

pub record PcmPlaybackFrameView : Type 0 where
  pub samples : List ℕ
  pub sequence_number : ℕ  -- uint64
  pub flags : ℕ  -- uint32

pub data PcmPlaybackQueueError : Type 0 where
  none invalid_sample_count zero_sequence_number unknown_flags queue_full : PcmPlaybackQueueError
  zero_output_frame_count invalid_output_sample_count : PcmPlaybackQueueError

abbrev pub error_to_string : PcmPlaybackQueueError → String
error_to_string PcmPlaybackQueueError.none = "none"
error_to_string PcmPlaybackQueueError.invalid_sample_count = "invalid_sample_count"
error_to_string PcmPlaybackQueueError.zero_sequence_number = "zero_sequence_number"
error_to_string PcmPlaybackQueueError.unknown_flags = "unknown_flags"
error_to_string PcmPlaybackQueueError.queue_full = "queue_full"
error_to_string PcmPlaybackQueueError.zero_output_frame_count = "zero_output_frame_count"
error_to_string PcmPlaybackQueueError.invalid_output_sample_count = "invalid_output_sample_count"

pub record PcmPlaybackEnqueueResult : Type 0 where
  pub error : PcmPlaybackQueueError
  pub queued_logical_frames : ℕ  -- uint32

pub record PcmPlaybackRenderResult : Type 0 where
  pub error : PcmPlaybackQueueError
  pub requested_frames : ℕ  -- uint32, as the next three
  pub queue_frames : ℕ
  pub silence_frames : ℕ
  pub completed_logical_frames : ℕ
  pub last_completed_sequence : ℕ  -- uint64
  pub last_completed_flags : ℕ  -- uint32

pub record PcmPlaybackDiscardResult : Type 0 where
  pub discarded_logical_frames : ℕ  -- uint32
  pub discarded_partial_frames : ℕ  -- uint32

pub record PcmPlaybackQueueSnapshot : Type 0 where
  pub queued_logical_frames : ℕ  -- uint32
  pub queued_pcm_frames : ℕ  -- uint32
  pub enqueued_logical_frames : ℕ  -- uint64, as all below but the last
  pub consumed_logical_frames : ℕ
  pub queue_output_frames : ℕ
  pub silence_output_frames : ℕ
  pub underrun_callbacks : ℕ
  pub dropped_logical_frames : ℕ
  pub discarded_logical_frames : ℕ
  pub discarded_partial_frames : ℕ
  pub discontinuity_logical_frames : ℕ
  pub last_enqueued_sequence : ℕ
  pub last_consumed_sequence : ℕ
  pub last_consumed_flags : ℕ  -- uint32

pub record Slot : Type 0 where
  pub samples : List ℕ
  pub sequence_number : ℕ  -- uint64
  pub flags : ℕ  -- uint32

-- `Slot{}`
unfoldable pub empty_slot : Slot
empty_slot = record {
  samples = replicate logical_pcm_frame_samples 0;
  sequence_number = 0;
  flags = 0;
}

pub record PcmPlaybackQueue : Type 0 where
  pub slots : List Slot
  pub write_position : ℕ  -- uint64
  pub read_position : ℕ  -- uint64
  pub read_offset_frames : ℕ  -- uint32
  pub enqueued_logical_frames : ℕ  -- uint64, as all below but the last
  pub consumed_logical_frames : ℕ
  pub queue_output_frames : ℕ
  pub silence_output_frames : ℕ
  pub underrun_callbacks : ℕ
  pub dropped_logical_frames : ℕ
  pub discarded_logical_frames : ℕ
  pub discarded_partial_frames : ℕ
  pub discontinuity_logical_frames : ℕ
  pub last_enqueued_sequence : ℕ
  pub last_consumed_sequence : ℕ
  pub last_consumed_flags : ℕ  -- uint32

-- `PcmPlaybackQueue{}`
unfoldable pub new : PcmPlaybackQueue
unfolding empty_slot
new = record {
  slots = replicate pcm_playback_queue_capacity empty_slot;
  write_position = 0;
  read_position = 0;
  read_offset_frames = 0;
  enqueued_logical_frames = 0;
  consumed_logical_frames = 0;
  queue_output_frames = 0;
  silence_output_frames = 0;
  underrun_callbacks = 0;
  dropped_logical_frames = 0;
  discarded_logical_frames = 0;
  discarded_partial_frames = 0;
  discontinuity_logical_frames = 0;
  last_enqueued_sequence = 0;
  last_consumed_sequence = 0;
  last_consumed_flags = 0;
}

-- Sums and differences on `std::uint32_t` and `std::uint64_t`.
abbrev pub add_u32 : ℕ → ℕ → ℕ
add_u32 a b = (a + b) % 2 ^ 32

abbrev pub sub_u32 : ℕ → ℕ → ℕ
sub_u32 a b = (a + 2 ^ 32 - b) % 2 ^ 32

abbrev pub add_u64 : ℕ → ℕ → ℕ
add_u64 a b = (a + b) % 2 ^ 64

abbrev pub sub_u64 : ℕ → ℕ → ℕ
sub_u64 a b = (a + 2 ^ 64 - b) % 2 ^ 64
