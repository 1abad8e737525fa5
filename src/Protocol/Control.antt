-- ===== src/Protocol/Control.antt =====
-- native/protocol/include/wiretone/protocol/control_payload.hpp and
-- native/protocol/src/control_payload.cpp: the payloads of the packets that are not audio.
pub mod Types
pub mod Utf8
pub mod Start
pub mod Fixed
pub mod Message
pub mod StartRoundTrip
pub mod FixedRoundTrip
pub mod MessageRoundTrip
