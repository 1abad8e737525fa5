-- ===== src/Capture/Lifecycle.antt =====
-- lifecycle.hpp and lifecycle.cpp: the states of a capture.
use wiretone.Prelude.{String}
pub mod Diagram

pub data CaptureState : Type 0 where
  idle ready running failed : CaptureState

pub data CaptureTransitionError : Type 0 where
  none not_idle not_ready not_running failed_state : CaptureTransitionError

unfoldable pub prepare : CaptureState → CaptureTransitionError × CaptureState
prepare CaptureState.failed = (CaptureTransitionError.failed_state, CaptureState.failed)
prepare CaptureState.idle = (CaptureTransitionError.none, CaptureState.ready)
prepare s = (CaptureTransitionError.not_idle, s)

unfoldable pub start : CaptureState → CaptureTransitionError × CaptureState
start CaptureState.failed = (CaptureTransitionError.failed_state, CaptureState.failed)
start CaptureState.ready = (CaptureTransitionError.none, CaptureState.running)
start s = (CaptureTransitionError.not_ready, s)

unfoldable pub stop : CaptureState → CaptureTransitionError × CaptureState
stop CaptureState.failed = (CaptureTransitionError.failed_state, CaptureState.failed)
stop CaptureState.running = (CaptureTransitionError.none, CaptureState.ready)
stop s = (CaptureTransitionError.not_running, s)

unfoldable pub fail : CaptureState → CaptureState
fail _ = CaptureState.failed

unfoldable pub reset : CaptureState → CaptureState
reset _ = CaptureState.idle

-- `to_string` of a state and of an error.
abbrev pub state_to_string : CaptureState → String
state_to_string CaptureState.idle = "idle"
state_to_string CaptureState.ready = "ready"
state_to_string CaptureState.running = "running"
state_to_string CaptureState.failed = "failed"

abbrev pub error_to_string : CaptureTransitionError → String
error_to_string CaptureTransitionError.none = "none"
error_to_string CaptureTransitionError.not_idle = "not_idle"
error_to_string CaptureTransitionError.not_ready = "not_ready"
error_to_string CaptureTransitionError.not_running = "not_running"
error_to_string CaptureTransitionError.failed_state = "failed_state"
