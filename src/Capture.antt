-- ===== src/Capture.antt =====
-- native/capture: the Windows sender's capture lifecycle, its recovery after a device change, the
-- conversion of the captured packets and the assembly of their samples into frames.
pub mod Lifecycle
pub mod Recovery
pub mod CapturedPacket
pub mod Assembler
mod Tests
