-- ===== src/Playback.antt =====
-- native/playback: the Android receiver's playback lifecycle and its queue of PCM frames.
pub mod Lifecycle
pub mod PcmQueue
mod Tests
