-- ===== src/Playback/Tests.antt =====
-- A playback that is started, and one that has lost its device.
use wiretone.Prelude.{◌≡◌, ◌↔◌}
use wiretone.Playback.Lifecycle.{PlaybackState, PlaybackTransitionError}
use wiretone.Playback.Lifecycle.Diagram.{PlaybackOperation, call, Moves, call-iff-Moves}

call-iff-Moves_example :
    (((call PlaybackOperation.starting PlaybackState.ready).0 ≡ PlaybackTransitionError.none)
      × ((call PlaybackOperation.starting PlaybackState.ready).1 ≡ PlaybackState.running))
    ↔ Moves PlaybackOperation.starting PlaybackState.ready PlaybackState.running
call-iff-Moves_example =
    call-iff-Moves PlaybackOperation.starting PlaybackState.ready PlaybackState.running
