-- ===== src/Capture/CapturedPacket.antt =====
-- native/capture/include/wiretone/capture/captured_packet.hpp and
-- native/capture/src/captured_packet.cpp: the packets of a capture, and their 16-bit samples.
pub mod Types
pub mod Convert
pub mod Output
pub mod Conversion
mod Tests
