-- ===== src/Protocol/Session.antt =====
-- native/protocol/include/wiretone/protocol/session.hpp and native/protocol/src/session.cpp: the
-- receiver's session over the reassembler, with its queue of completed frames.
pub mod Types
pub mod Handlers
pub mod Receive
pub mod Invariant
pub mod Preserved
pub mod Queue
pub mod Ownership
pub mod Runs
pub mod Responses
pub mod InFlight
pub mod Refused
mod Tests
