-- ===== src/Protocol.antt =====
-- native/protocol: the wire formats, the audio fragments and the receiver's session.
pub mod Bytes
pub mod Packet
pub mod Control
pub mod Audio
pub mod Session
mod Tests
