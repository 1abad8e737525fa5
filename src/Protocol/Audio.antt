-- ===== src/Protocol/Audio.antt =====
-- native/protocol/include/wiretone/protocol/audio_frame.hpp and
-- native/protocol/src/audio_frame.cpp: an audio frame is sent as one to four datagrams and put
-- together again from them.
pub mod Types
pub mod Fragment
pub mod Fragmented
pub mod Sent
pub mod Parts
pub mod Slot
pub mod Reassembler
pub mod Holding
pub mod Inserting
pub mod Owning
pub mod Delivery
pub mod Reassembly
pub mod Clock
pub mod Rules
pub mod InUse
pub mod Refused
mod Tests
