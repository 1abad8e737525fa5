-- ===== src/Playback/Lifecycle.antt =====
-- lifecycle.hpp and lifecycle.cpp: the states of a playback.
use wiretone.Prelude.{String}
pub mod Diagram

pub data PlaybackState : Type 0 where
  idle ready running disconnected failed : PlaybackState

pub data PlaybackTransitionError : Type 0 where
  none not_idle not_ready not_running terminal_state : PlaybackTransitionError

unfoldable pub prepare : PlaybackState → PlaybackTransitionError × PlaybackState
prepare PlaybackState.disconnected =
    (PlaybackTransitionError.terminal_state, PlaybackState.disconnected)
prepare PlaybackState.failed = (PlaybackTransitionError.terminal_state, PlaybackState.failed)
prepare PlaybackState.idle = (PlaybackTransitionError.none, PlaybackState.ready)
prepare s = (PlaybackTransitionError.not_idle, s)

unfoldable pub start : PlaybackState → PlaybackTransitionError × PlaybackState
start PlaybackState.disconnected =
    (PlaybackTransitionError.terminal_state, PlaybackState.disconnected)
start PlaybackState.failed = (PlaybackTransitionError.terminal_state, PlaybackState.failed)
start PlaybackState.ready = (PlaybackTransitionError.none, PlaybackState.running)
start s = (PlaybackTransitionError.not_ready, s)

unfoldable pub stop : PlaybackState → PlaybackTransitionError × PlaybackState
stop PlaybackState.disconnected =
    (PlaybackTransitionError.terminal_state, PlaybackState.disconnected)
stop PlaybackState.failed = (PlaybackTransitionError.terminal_state, PlaybackState.failed)
stop PlaybackState.running = (PlaybackTransitionError.none, PlaybackState.ready)
stop s = (PlaybackTransitionError.not_running, s)

unfoldable pub disconnect : PlaybackState → PlaybackState
disconnect PlaybackState.idle = PlaybackState.idle
disconnect _ = PlaybackState.disconnected

unfoldable pub fail : PlaybackState → PlaybackState
fail _ = PlaybackState.failed

unfoldable pub reset : PlaybackState → PlaybackState
reset _ = PlaybackState.idle

-- `to_string` of a state and of an error.
abbrev pub state_to_string : PlaybackState → String
state_to_string PlaybackState.idle = "idle"
state_to_string PlaybackState.ready = "ready"
state_to_string PlaybackState.running = "running"
state_to_string PlaybackState.disconnected = "disconnected"
state_to_string PlaybackState.failed = "failed"

abbrev pub error_to_string : PlaybackTransitionError → String
error_to_string PlaybackTransitionError.none = "none"
error_to_string PlaybackTransitionError.not_idle = "not_idle"
error_to_string PlaybackTransitionError.not_ready = "not_ready"
error_to_string PlaybackTransitionError.not_running = "not_running"
error_to_string PlaybackTransitionError.terminal_state = "terminal_state"
