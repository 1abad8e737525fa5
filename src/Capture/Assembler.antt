-- ===== src/Capture/Assembler.antt =====
-- native/capture/include/wiretone/capture/pcm_frame_assembler.hpp and
-- native/capture/src/pcm_frame_assembler.cpp: the captured samples in frames of 960.
pub mod Types
pub mod Accept
pub mod Samples
pub mod Filling
pub mod Between
pub mod Feeding
pub mod Rounds
pub mod Begin
pub mod Assembly
pub mod Stream
pub mod Packets
mod Tests
