-- ===== src/Capture/Tests.antt =====
-- Captures that are started, fail and are restarted.
use wiretone.Prelude.{◌≡◌, ◌≢◌, ◌↔◌, refl, true}
use wiretone.Capture.Lifecycle.{CaptureState, CaptureTransitionError}
use wiretone.Capture.Lifecycle.Diagram.{CaptureOperation, perform, Steps, perform-iff-Steps}
use wiretone.Capture.Recovery.{
  CaptureRecoveryState, CaptureRecoveryTrigger, CaptureRecoveryTransitionError,
  CaptureRecoveryController, reset, request, note_trigger, begin_attempt, begin_attempt_in,
  complete_failure, complete_in,
}
use wiretone.Capture.Recovery.Bounded.{
  Calls, begin_attempt-never_exhausted, fail_attempt, fail_attempt-bounded,
}
use wiretone.Capture.Recovery.Cycle.{Began, IsBounded, Began-IsBounded}

perform-iff-Steps_example :
    (((perform CaptureOperation.starting CaptureState.ready).0 ≡ CaptureTransitionError.none)
      × ((perform CaptureOperation.starting CaptureState.ready).1 ≡ CaptureState.running))
    ↔ Steps CaptureOperation.starting CaptureState.ready CaptureState.running
perform-iff-Steps_example =
    perform-iff-Steps CaptureOperation.starting CaptureState.ready CaptureState.running

-- After an invalidated device and one failed attempt.
abbrev retrying : CaptureRecoveryController
retrying =
    (complete_failure (begin_attempt (request reset CaptureRecoveryTrigger.device_invalidated).1).1
      true).1

retrying-Calls : Calls retrying
retrying-Calls =
    Calls.failed _ true
      (Calls.begun _ (Calls.requested _ CaptureRecoveryTrigger.device_invalidated Calls.new))

retrying-pending : retrying.state ≡ CaptureRecoveryState.restart_pending
unfolding request note_trigger begin_attempt_in complete_failure complete_in
retrying-pending = refl

retrying-Began : Began retrying 1
unfolding request note_trigger begin_attempt_in complete_failure complete_in
retrying-Began =
    Began.failed _ 1 true
      (Began.begun _ 0 (Began.requested _ 0 CaptureRecoveryTrigger.device_invalidated Began.new))

Began-IsBounded_example : IsBounded retrying 1
Began-IsBounded_example = Began-IsBounded retrying 1 retrying-Began

begin_attempt-never_exhausted_example :
    (begin_attempt retrying).0 ≢ CaptureRecoveryTransitionError.attempts_exhausted
begin_attempt-never_exhausted_example = begin_attempt-never_exhausted retrying retrying-Calls

fail_attempt-bounded_example :
    (fail_attempt (fail_attempt (fail_attempt retrying))).state ≡ CaptureRecoveryState.failed
fail_attempt-bounded_example = fail_attempt-bounded retrying retrying-Calls retrying-pending
