-- ===== src/Sender/Wasapi/Recover.antt =====
-- wasapi_loopback_capture.cpp: the restart after a device change: `queue_recovery`,
-- `recover_if_requested` and `recover_capture_call`.
use wiretone.Prelude.{ℕ, zero, suc, Bool, true, false, not, ◌==◌, if◌then◌else◌, bit_or, has_flag}
use wiretone.Capture.Recovery.{
  maximum_capture_restart_attempts, CaptureRecoveryState, CaptureRecoveryTrigger,
  CaptureRecoveryTransitionError, request, begin_attempt, complete_success, complete_failure,
}
use wiretone.Capture.Assembler.Accept as Assembler
use wiretone.Sender.Wasapi.Platform.{Platform}
use wiretone.Sender.Wasapi.Types.{WasapiCaptureError, Impl}
use wiretone.Sender.Wasapi.Endpoint.{
  is_no_error, configure_current_endpoint, count_dropped, fail_with, is_device_invalidated,
  clear_error,
}

abbrev pub pending_recovery_device_invalidated : ℕ
pending_recovery_device_invalidated = 1

abbrev pub pending_recovery_default_device_changed : ℕ
pending_recovery_default_device_changed = 2

abbrev pub is_none : CaptureRecoveryTransitionError → Bool
is_none CaptureRecoveryTransitionError.none = true
is_none _ = false

abbrev pub is_pending : CaptureRecoveryState → Bool
is_pending CaptureRecoveryState.restart_pending = true
is_pending _ = false

abbrev pub trigger_flag : CaptureRecoveryTrigger → ℕ
trigger_flag CaptureRecoveryTrigger.default_device_changed = pending_recovery_default_device_changed
trigger_flag _ = pending_recovery_device_invalidated

module _ (platform : Platform) where
  unfoldable pub queue_recovery : Impl platform → CaptureRecoveryTrigger → Impl platform
  queue_recovery s trigger = record s {
    pending_recovery_flags = bit_or s.pending_recovery_flags (trigger_flag trigger);
  }

  -- `OnDefaultDeviceChanged` of the console's render device.
  unfoldable pub on_default_device_changed : Impl platform → Impl platform
  on_default_device_changed s = record s {
    pending_recovery_flags =
        bit_or s.pending_recovery_flags pending_recovery_default_device_changed;
  }

  -- How a round of the loop ends: with the result of the call, or to be tried again.
  pub data Attempt : Type 0 where
    ended : Bool → Impl platform → Attempt
    retried : WasapiCaptureError → platform.HResult → Impl platform → Attempt

  abbrev pub give_up : Impl platform → WasapiCaptureError → platform.HResult → Attempt
  give_up s e r = ended (fail_with platform s e r).0 (fail_with platform s e r).1

  -- An attempt that has failed and may be tried again.
  unfoldable pub retry_or_fail : Impl platform → WasapiCaptureError → platform.HResult → Attempt
  retry_or_fail s e r =
      let after = record s { recovery = (complete_failure s.recovery true).1 } in
      if is_pending after.recovery.state
      then retried e r after
      else give_up after WasapiCaptureError.recovery_restart_failed r

  -- The client has been started.
  unfoldable pub resume : Impl platform → Attempt
  resume s =
      let (transition, recovery) = complete_success s.recovery in
      let after = record s { audio_started = true; recovery = recovery } in
      if not (is_none transition)
      then give_up after WasapiCaptureError.recovery_restart_failed platform.e_unexpected
      else ended true (clear_error platform (record after { recovery_frame_pending = true }))

  -- The endpoint has been configured.
  unfoldable pub restart : Impl platform → Attempt
  restart s =
      let (start_result, world) = platform.start_client s.world in
      let started = record s { world = world } in
      if not s.normalization_supported
      then give_up (record s { recovery = (complete_failure s.recovery false).1 })
          WasapiCaptureError.recovery_unsupported_mix_format platform.e_invalidarg
      else if platform.failed start_result
      then retry_or_fail started WasapiCaptureError.stream_start_failed start_result
      else resume started

  -- The attempt has begun.
  unfoldable pub reconfigure : Impl platform → Attempt
  reconfigure s =
      let (dropped, assembler) = Assembler.discard_partial s.frame_assembler in
      let (configuration, after) = configure_current_endpoint platform (record s {
        frame_assembler = assembler;
        counters = count_dropped platform dropped s.counters;
      }) in
      if not (is_no_error configuration.error)
      then retry_or_fail after configuration.error configuration.native_result
      else restart after

  unfoldable pub recover_round : Impl platform → Attempt
  recover_round s =
      let (transition, recovery) = begin_attempt s.recovery in
      let after = record s { recovery = recovery } in
      if not (is_none transition)
      then give_up after WasapiCaptureError.recovery_restart_failed platform.e_unexpected
      else reconfigure after

  -- The call returns, or goes on with the loop.
  abbrev pub after_round :
      Attempt
      → (WasapiCaptureError → platform.HResult → Impl platform → Bool × Impl platform)
      → Bool × Impl platform
  after_round (ended ok after) go_on = (ok, after)
  after_round (retried e r after) go_on = go_on e r after

  -- The `while` loop, with the error and the result of the last attempt. Each round
  -- is an attempt, so the attempts of a cycle are enough fuel.
  unfoldable pub recover_loop :
      ℕ → WasapiCaptureError → platform.HResult → Impl platform → Bool × Impl platform
  recover_loop zero e r s = fail_with platform s e r
  recover_loop (suc fuel) e r s =
      if is_pending s.recovery.state
      then after_round (recover_round s) (recover_loop fuel)
      else fail_with platform s e r

  -- A trigger whose flag has been set is handed to the controller; whether it takes it.
  unfoldable pub request_trigger :
      Bool → CaptureRecoveryTrigger → Impl platform → Bool × Impl platform
  request_trigger asked trigger s =
      let (transition, recovery) = request s.recovery trigger in
      if asked then (is_none transition, record s { recovery = recovery }) else (true, s)

  -- The fuel is that of the loop.
  unfoldable pub recover_within : ℕ → Impl platform → Bool × Impl platform
  recover_within fuel s =
      let pending = s.pending_recovery_flags in
      let taken = record s { pending_recovery_flags = 0 } in
      let (first_ok, first) =
        request_trigger (has_flag pending pending_recovery_device_invalidated)
          CaptureRecoveryTrigger.device_invalidated taken in
      let (second_ok, second) =
        request_trigger (has_flag pending pending_recovery_default_device_changed)
          CaptureRecoveryTrigger.default_device_changed first in
      if pending == 0
      then (true, taken)
      else if not first_ok
      then fail_with platform first WasapiCaptureError.recovery_restart_failed platform.e_unexpected
      else if not second_ok
      then fail_with platform second WasapiCaptureError.recovery_restart_failed
          platform.e_unexpected
      else recover_loop fuel WasapiCaptureError.recovery_restart_failed platform.e_fail second

  abbrev pub recover_if_requested : Impl platform → Bool × Impl platform
  recover_if_requested s = recover_within maximum_capture_restart_attempts s

  unfoldable pub recover_capture_call :
      Impl platform → WasapiCaptureError → platform.HResult → Bool × Impl platform
  recover_capture_call s default_error result =
      if not (is_device_invalidated platform result)
      then fail_with platform s default_error result
      else recover_if_requested (queue_recovery s CaptureRecoveryTrigger.device_invalidated)
