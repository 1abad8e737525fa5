-- ===== src/Playback/Lifecycle/Diagram.antt =====
-- lifecycle.cpp: the operations against the state diagram of a playback.
use wiretone.Prelude.{◌≡◌, ◌≢◌, ◌↔◌, refl, subst, arith}
use wiretone.Playback.Lifecycle.{
  PlaybackState, PlaybackTransitionError, prepare, start, stop, disconnect, fail, reset,
}

pub data PlaybackOperation : Type 0 where
  preparing starting stopping disconnecting failing resetting : PlaybackOperation

-- The call of an operation; those that return nothing answer no error.
unfoldable pub call : PlaybackOperation → PlaybackState → PlaybackTransitionError × PlaybackState
unfolding prepare start stop disconnect fail reset
call PlaybackOperation.preparing s = prepare s
call PlaybackOperation.starting s = start s
call PlaybackOperation.stopping s = stop s
call PlaybackOperation.disconnecting s = (PlaybackTransitionError.none, disconnect s)
call PlaybackOperation.failing s = (PlaybackTransitionError.none, fail s)
call PlaybackOperation.resetting s = (PlaybackTransitionError.none, reset s)

-- The state diagram: the operation takes the first state to the second.
pub data Moves : PlaybackOperation → PlaybackState → PlaybackState → Type 0 where
  prepares : Moves PlaybackOperation.preparing PlaybackState.idle PlaybackState.ready
  starts : Moves PlaybackOperation.starting PlaybackState.ready PlaybackState.running
  stops : Moves PlaybackOperation.stopping PlaybackState.running PlaybackState.ready
  ignores : Moves PlaybackOperation.disconnecting PlaybackState.idle PlaybackState.idle
  disconnects :
      (s : PlaybackState)
      → s ≢ PlaybackState.idle
      → Moves PlaybackOperation.disconnecting s PlaybackState.disconnected
  fails : (s : PlaybackState) → Moves PlaybackOperation.failing s PlaybackState.failed
  resets : (s : PlaybackState) → Moves PlaybackOperation.resetting s PlaybackState.idle

prepare-Moves :
    (s : PlaybackState)
    → (prepare s).0 ≡ PlaybackTransitionError.none
    → Moves PlaybackOperation.preparing s (prepare s).1
unfolding prepare
prepare-Moves PlaybackState.idle e = Moves.prepares
prepare-Moves PlaybackState.ready e = absurd (cc)
prepare-Moves PlaybackState.running e = absurd (cc)
prepare-Moves PlaybackState.disconnected e = absurd (cc)
prepare-Moves PlaybackState.failed e = absurd (cc)

start-Moves :
    (s : PlaybackState)
    → (start s).0 ≡ PlaybackTransitionError.none
    → Moves PlaybackOperation.starting s (start s).1
unfolding start
start-Moves PlaybackState.idle e = absurd (cc)
start-Moves PlaybackState.ready e = Moves.starts
start-Moves PlaybackState.running e = absurd (cc)
start-Moves PlaybackState.disconnected e = absurd (cc)
start-Moves PlaybackState.failed e = absurd (cc)

stop-Moves :
    (s : PlaybackState)
    → (stop s).0 ≡ PlaybackTransitionError.none
    → Moves PlaybackOperation.stopping s (stop s).1
unfolding stop
stop-Moves PlaybackState.idle e = absurd (cc)
stop-Moves PlaybackState.ready e = absurd (cc)
stop-Moves PlaybackState.running e = Moves.stops
stop-Moves PlaybackState.disconnected e = absurd (cc)
stop-Moves PlaybackState.failed e = absurd (cc)

disconnect-Moves : (s : PlaybackState) → Moves PlaybackOperation.disconnecting s (disconnect s)
unfolding disconnect
disconnect-Moves PlaybackState.idle = Moves.ignores
disconnect-Moves PlaybackState.ready = Moves.disconnects PlaybackState.ready (λ e. cc)
disconnect-Moves PlaybackState.running = Moves.disconnects PlaybackState.running (λ e. cc)
disconnect-Moves PlaybackState.disconnected = Moves.disconnects PlaybackState.disconnected (λ e. cc)
disconnect-Moves PlaybackState.failed = Moves.disconnects PlaybackState.failed (λ e. cc)

call-Moves :
    (o : PlaybackOperation) (s : PlaybackState)
    → (call o s).0 ≡ PlaybackTransitionError.none
    → Moves o s (call o s).1
unfolding call fail reset
call-Moves PlaybackOperation.preparing s e = prepare-Moves s e
call-Moves PlaybackOperation.starting s e = start-Moves s e
call-Moves PlaybackOperation.stopping s e = stop-Moves s e
call-Moves PlaybackOperation.disconnecting s e = disconnect-Moves s
call-Moves PlaybackOperation.failing s e = Moves.fails s
call-Moves PlaybackOperation.resetting s e = Moves.resets s

Moves-call :
    (o : PlaybackOperation) (s t : PlaybackState)
    → Moves o s t
    → ((call o s).0 ≡ PlaybackTransitionError.none) × ((call o s).1 ≡ t)
unfolding call prepare start stop disconnect fail reset
Moves-call o s t Moves.prepares = (refl, refl)
Moves-call o s t Moves.starts = (refl, refl)
Moves-call o s t Moves.stops = (refl, refl)
Moves-call o s t Moves.ignores = (refl, refl)
Moves-call o s t (Moves.disconnects _ apart) = ground (arith, apart)
Moves-call o s t (Moves.fails _) = (refl, refl)
Moves-call o s t (Moves.resets _) = (refl, refl)

-- An operation succeeds and leaves a state exactly when the state diagram has the move.
pub call-iff-Moves :
    (o : PlaybackOperation) (s t : PlaybackState)
    → (((call o s).0 ≡ PlaybackTransitionError.none) × ((call o s).1 ≡ t)) ↔ Moves o s t
call-iff-Moves o s t = ((λ h. subst (λ u. Moves o s u) h.1 (call-Moves o s h.0)), Moves-call o s t)

-- An operation that is refused leaves the state as it is.
pub call-refused :
    (o : PlaybackOperation) (s : PlaybackState)
    → (call o s).0 ≢ PlaybackTransitionError.none
    → (call o s).1 ≡ s
unfolding call prepare start stop disconnect fail reset
call-refused o s e = ground arith
