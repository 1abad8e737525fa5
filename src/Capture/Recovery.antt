-- ===== src/Capture/Recovery.antt =====
-- recovery.hpp and recovery.cpp: the restarts of the capture after a device change.
use wiretone.Prelude.{ℕ, ◌+◌, ◌%◌, ◌^◌, Bool, true, false, ◌&&◌, ltb, leb, if◌then◌else◌}
pub mod Bounded
pub mod Cycle

abbrev pub maximum_capture_restart_attempts : ℕ
maximum_capture_restart_attempts = 3

pub data CaptureRecoveryState : Type 0 where
  stable restart_pending restarting failed : CaptureRecoveryState

pub data CaptureRecoveryTrigger : Type 0 where
  none device_invalidated default_device_changed : CaptureRecoveryTrigger

pub data CaptureRecoveryTransitionError : Type 0 where
  none invalid_trigger not_pending not_restarting attempts_exhausted failed_state :
      CaptureRecoveryTransitionError

-- The controller's fields; its snapshot has the same ones, so it stands for it too.
pub record CaptureRecoveryController : Type 0 where
  pub state : CaptureRecoveryState
  pub last_trigger : CaptureRecoveryTrigger
  pub attempts_in_cycle : ℕ  -- uint32
  pub restart_attempts : ℕ  -- uint64, as all below
  pub successful_restarts : ℕ
  pub failed_restarts : ℕ
  pub device_invalidations : ℕ
  pub default_device_changes : ℕ
  pub discontinuity_pending : Bool

-- `++counter` on `std::uint64_t`.
abbrev pub increment_u64 : ℕ → ℕ
increment_u64 counter = (counter + 1) % 2 ^ 64

-- The trigger is counted, and a stable capture is to be restarted.
unfoldable pub note_trigger :
    CaptureRecoveryController → CaptureRecoveryTrigger → CaptureRecoveryController
note_trigger c trigger = pend (count trigger (record c { last_trigger = trigger }))
  where
    count : CaptureRecoveryTrigger → CaptureRecoveryController → CaptureRecoveryController
    count CaptureRecoveryTrigger.none c = c
    count CaptureRecoveryTrigger.device_invalidated c = record c {
      device_invalidations = increment_u64 c.device_invalidations;
    }
    count CaptureRecoveryTrigger.default_device_changed c = record c {
      default_device_changes = increment_u64 c.default_device_changes;
    }

    is_stable : CaptureRecoveryState → Bool
    is_stable CaptureRecoveryState.stable = true
    is_stable _ = false

    pend : CaptureRecoveryController → CaptureRecoveryController
    pend c =
        if is_stable c.state
        then record c { attempts_in_cycle = 0; state = CaptureRecoveryState.restart_pending }
        else c

abbrev pub is_failed : CaptureRecoveryState → Bool
is_failed CaptureRecoveryState.failed = true
is_failed _ = false

abbrev pub is_no_trigger : CaptureRecoveryTrigger → Bool
is_no_trigger CaptureRecoveryTrigger.none = true
is_no_trigger _ = false

unfoldable pub request :
    CaptureRecoveryController
    → CaptureRecoveryTrigger
    → CaptureRecoveryTransitionError × CaptureRecoveryController
request c trigger =
    if is_no_trigger trigger
    then (CaptureRecoveryTransitionError.invalid_trigger, c)
    else if is_failed c.state
    then (CaptureRecoveryTransitionError.failed_state, c)
    else (CaptureRecoveryTransitionError.none, note_trigger c trigger)

-- By the controller's state.
unfoldable pub begin_attempt_in :
    CaptureRecoveryState
    → CaptureRecoveryController
    → CaptureRecoveryTransitionError × CaptureRecoveryController
begin_attempt_in CaptureRecoveryState.failed c = (CaptureRecoveryTransitionError.failed_state, c)
begin_attempt_in CaptureRecoveryState.stable c = (CaptureRecoveryTransitionError.not_pending, c)
begin_attempt_in CaptureRecoveryState.restarting c = (CaptureRecoveryTransitionError.not_pending, c)
begin_attempt_in CaptureRecoveryState.restart_pending c =
    if leb maximum_capture_restart_attempts c.attempts_in_cycle
    then (
      CaptureRecoveryTransitionError.attempts_exhausted,
      record c { state = CaptureRecoveryState.failed },
    )
    else (
      CaptureRecoveryTransitionError.none,
      record c {
        attempts_in_cycle = (c.attempts_in_cycle + 1) % 2 ^ 32;
        restart_attempts = increment_u64 c.restart_attempts;
        state = CaptureRecoveryState.restarting;
      },
    )

abbrev pub begin_attempt :
    CaptureRecoveryController → CaptureRecoveryTransitionError × CaptureRecoveryController
begin_attempt c = begin_attempt_in c.state c

-- The two ends of an attempt answer the same when there is none.
unfoldable pub complete_in :
    CaptureRecoveryState
    → CaptureRecoveryController
    → CaptureRecoveryController
    → CaptureRecoveryTransitionError × CaptureRecoveryController
complete_in CaptureRecoveryState.failed c after = (CaptureRecoveryTransitionError.failed_state, c)
complete_in CaptureRecoveryState.stable c after = (CaptureRecoveryTransitionError.not_restarting, c)
complete_in CaptureRecoveryState.restart_pending c after =
    (CaptureRecoveryTransitionError.not_restarting, c)
complete_in CaptureRecoveryState.restarting c after = (CaptureRecoveryTransitionError.none, after)

unfoldable pub complete_success :
    CaptureRecoveryController → CaptureRecoveryTransitionError × CaptureRecoveryController
complete_success c = complete_in c.state c (record c {
  successful_restarts = increment_u64 c.successful_restarts;
  attempts_in_cycle = 0;
  discontinuity_pending = true;
  state = CaptureRecoveryState.stable;
})

unfoldable pub complete_failure :
    CaptureRecoveryController → Bool → CaptureRecoveryTransitionError × CaptureRecoveryController
complete_failure c retryable = complete_in c.state c (record c {
  failed_restarts = increment_u64 c.failed_restarts;
  state =
      if retryable && ltb c.attempts_in_cycle maximum_capture_restart_attempts
      then CaptureRecoveryState.restart_pending
      else CaptureRecoveryState.failed;
})

unfoldable pub consume_discontinuity : CaptureRecoveryController → Bool × CaptureRecoveryController
consume_discontinuity c = (c.discontinuity_pending, record c { discontinuity_pending = false })

-- `CaptureRecoveryController{}` too.
abbrev pub reset : CaptureRecoveryController
reset = record {
  state = CaptureRecoveryState.stable;
  last_trigger = CaptureRecoveryTrigger.none;
  attempts_in_cycle = 0;
  restart_attempts = 0;
  successful_restarts = 0;
  failed_restarts = 0;
  device_invalidations = 0;
  default_device_changes = 0;
  discontinuity_pending = false;
}
