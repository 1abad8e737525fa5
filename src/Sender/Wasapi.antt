-- ===== src/Sender/Wasapi.antt =====
-- apps/windows-sender/src/wasapi_loopback_capture.cpp: the capture, over the calls of WASAPI.
pub mod Platform
pub mod Types
pub mod Endpoint
pub mod Recover
pub mod Configured
pub mod Held
pub mod UnderWay
pub mod Outcome
pub mod Recovered
pub mod Frames
pub mod Calls
pub mod Answers
mod Tests
