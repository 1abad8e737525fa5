-- ===== src/Playback/PcmQueue.antt =====
-- native/playback/include/wiretone/playback/pcm_queue.hpp and native/playback/src/pcm_queue.cpp:
-- the queue of PCM frames between the receiver and the audio callback.
pub mod Types
pub mod Enqueue
pub mod Render
pub mod Control
pub mod Pending
pub mod Appending
pub mod Between
pub mod Round
pub mod Playing
pub mod Counting
pub mod Interleaving
pub mod Bounds
pub mod Refinement
mod Tests
