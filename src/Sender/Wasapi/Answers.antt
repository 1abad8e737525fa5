-- ===== src/Sender/Wasapi/Answers.antt =====
-- wasapi_loopback_capture.cpp: the calls of the capture, by the state that they leave.
use wiretone.Prelude.{◌≡◌, refl, Bool, true, false}
use wiretone.Capture.Lifecycle.{CaptureState}
use wiretone.Capture.Lifecycle as Lifecycle
use wiretone.Capture.Recovery as Recovery
use wiretone.Capture.Recovery.Bounded.{IsAccounted}
use wiretone.Sender.Wasapi.Platform.{Platform}
use wiretone.Sender.Wasapi.Types.{Impl}
use wiretone.Sender.Wasapi.Outcome.{HasFailed}
use wiretone.Sender.Wasapi.Calls.{
  initialize, start, stop, request_simulated_device_invalidation_for_probe,
}

pub data CaptureCall : Type 0 where
  initializing starting stopping probing : CaptureCall

pub reset-IsAccounted : IsAccounted Recovery.reset
reset-IsAccounted = record { fits = refl; attempts = refl }

module _ (platform : Platform) where
  unfoldable pub call_capture : CaptureCall → Impl platform → Bool × Impl platform
  call_capture CaptureCall.initializing s = initialize platform s
  call_capture CaptureCall.starting s = start platform s
  call_capture CaptureCall.stopping s = stop platform s
  call_capture CaptureCall.probing s = request_simulated_device_invalidation_for_probe platform s

  -- What a call that succeeds has done.
  unfoldable pub Succeeds : CaptureCall → CaptureState → Impl platform → Type 0
  Succeeds CaptureCall.initializing before s =
      (before ≡ CaptureState.idle) × (s.lifecycle ≡ CaptureState.ready)
  Succeeds CaptureCall.starting before s =
      (before ≡ CaptureState.ready)
      × (s.lifecycle ≡ CaptureState.running)
      × (s.audio_started ≡ true)
      × (s.normalization_supported ≡ true)
      × (s.frame_assembler.pending_frames ≡ 0)
  Succeeds CaptureCall.stopping before s =
      (before ≡ CaptureState.running)
      × (s.lifecycle ≡ CaptureState.ready)
      × (s.audio_started ≡ false)
      × (s.frame_assembler.pending_frames ≡ 0)
  Succeeds CaptureCall.probing before s =
      (before ≡ CaptureState.running) × (s.lifecycle ≡ CaptureState.running)

  -- A call that returns true has succeeded; after one that returns false the capture has failed.
  unfoldable pub Answers : CaptureCall → CaptureState → Bool × Impl platform → Type 0
  Answers c before (true, s) = Succeeds c before s × IsAccounted s.recovery
  Answers c before (false, s) = HasFailed platform s
