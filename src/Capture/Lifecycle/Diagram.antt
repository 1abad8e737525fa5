-- ===== src/Capture/Lifecycle/Diagram.antt =====
-- lifecycle.cpp: the operations against the state diagram of a capture.
use wiretone.Prelude.{◌≡◌, ◌≢◌, ◌↔◌, refl, subst, arith}
use wiretone.Capture.Lifecycle.{
  CaptureState, CaptureTransitionError, prepare, start, stop, fail, reset,
}

pub data CaptureOperation : Type 0 where
  preparing starting stopping failing resetting : CaptureOperation

-- The call of an operation; those that return nothing answer no error.
unfoldable pub perform : CaptureOperation → CaptureState → CaptureTransitionError × CaptureState
unfolding prepare start stop fail reset
perform CaptureOperation.preparing s = prepare s
perform CaptureOperation.starting s = start s
perform CaptureOperation.stopping s = stop s
perform CaptureOperation.failing s = (CaptureTransitionError.none, fail s)
perform CaptureOperation.resetting s = (CaptureTransitionError.none, reset s)

-- The state diagram: the operation takes the first state to the second.
pub data Steps : CaptureOperation → CaptureState → CaptureState → Type 0 where
  prepares : Steps CaptureOperation.preparing CaptureState.idle CaptureState.ready
  starts : Steps CaptureOperation.starting CaptureState.ready CaptureState.running
  stops : Steps CaptureOperation.stopping CaptureState.running CaptureState.ready
  fails : (s : CaptureState) → Steps CaptureOperation.failing s CaptureState.failed
  resets : (s : CaptureState) → Steps CaptureOperation.resetting s CaptureState.idle

prepare-Steps :
    (s : CaptureState)
    → (prepare s).0 ≡ CaptureTransitionError.none
    → Steps CaptureOperation.preparing s (prepare s).1
unfolding prepare
prepare-Steps CaptureState.idle e = Steps.prepares
prepare-Steps CaptureState.ready e = absurd (cc)
prepare-Steps CaptureState.running e = absurd (cc)
prepare-Steps CaptureState.failed e = absurd (cc)

start-Steps :
    (s : CaptureState)
    → (start s).0 ≡ CaptureTransitionError.none
    → Steps CaptureOperation.starting s (start s).1
unfolding start
start-Steps CaptureState.idle e = absurd (cc)
start-Steps CaptureState.ready e = Steps.starts
start-Steps CaptureState.running e = absurd (cc)
start-Steps CaptureState.failed e = absurd (cc)

stop-Steps :
    (s : CaptureState)
    → (stop s).0 ≡ CaptureTransitionError.none
    → Steps CaptureOperation.stopping s (stop s).1
unfolding stop
stop-Steps CaptureState.idle e = absurd (cc)
stop-Steps CaptureState.ready e = absurd (cc)
stop-Steps CaptureState.running e = Steps.stops
stop-Steps CaptureState.failed e = absurd (cc)

perform-Steps :
    (o : CaptureOperation) (s : CaptureState)
    → (perform o s).0 ≡ CaptureTransitionError.none
    → Steps o s (perform o s).1
unfolding perform fail reset
perform-Steps CaptureOperation.preparing s e = prepare-Steps s e
perform-Steps CaptureOperation.starting s e = start-Steps s e
perform-Steps CaptureOperation.stopping s e = stop-Steps s e
perform-Steps CaptureOperation.failing s e = Steps.fails s
perform-Steps CaptureOperation.resetting s e = Steps.resets s

Steps-perform :
    (o : CaptureOperation) (s t : CaptureState)
    → Steps o s t
    → ((perform o s).0 ≡ CaptureTransitionError.none) × ((perform o s).1 ≡ t)
unfolding perform prepare start stop fail reset
Steps-perform o s t Steps.prepares = (refl, refl)
Steps-perform o s t Steps.starts = (refl, refl)
Steps-perform o s t Steps.stops = (refl, refl)
Steps-perform o s t (Steps.fails _) = (refl, refl)
Steps-perform o s t (Steps.resets _) = (refl, refl)

-- An operation succeeds and leaves a state exactly when the state diagram has the move.
pub perform-iff-Steps :
    (o : CaptureOperation) (s t : CaptureState)
    → (((perform o s).0 ≡ CaptureTransitionError.none) × ((perform o s).1 ≡ t)) ↔ Steps o s t
perform-iff-Steps o s t =
    ((λ h. subst (λ u. Steps o s u) h.1 (perform-Steps o s h.0)), Steps-perform o s t)

-- An operation that is refused leaves the state as it is.
pub perform-refused :
    (o : CaptureOperation) (s : CaptureState)
    → (perform o s).0 ≢ CaptureTransitionError.none
    → (perform o s).1 ≡ s
unfolding perform prepare start stop fail reset
perform-refused o s e = ground arith
