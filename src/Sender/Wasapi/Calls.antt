-- ===== src/Sender/Wasapi/Calls.antt =====
-- wasapi_loopback_capture.cpp: `initialize`, `start`, `stop` and
-- `request_simulated_device_invalidation_for_probe`. The capture has its `Impl` from its
-- construction on.
use wiretone.Prelude.{Bool, true, false, not, if◌then◌else◌}
use wiretone.Capture.Lifecycle.{CaptureState, CaptureTransitionError}
use wiretone.Capture.Lifecycle as Lifecycle
use wiretone.Capture.Recovery.{CaptureRecoveryTrigger}
use wiretone.Capture.Assembler.Accept as Assembler
use wiretone.Sender.Wasapi.Platform.{Platform}
use wiretone.Sender.Wasapi.Types.{WasapiCaptureError, Impl}
use wiretone.Sender.Wasapi.Endpoint.{
  is_no_error, configure_current_endpoint, count_dropped, fail_with, is_device_invalidated,
  clear_error,
}
use wiretone.Sender.Wasapi.Frames.{reset_run_state}
use wiretone.Sender.Wasapi.Recover.{queue_recovery}

abbrev pub is_idle : CaptureState → Bool
is_idle CaptureState.idle = true
is_idle _ = false

abbrev pub is_ready : CaptureState → Bool
is_ready CaptureState.ready = true
is_ready _ = false

abbrev pub is_running : CaptureState → Bool
is_running CaptureState.running = true
is_running _ = false

abbrev pub is_done : CaptureTransitionError → Bool
is_done CaptureTransitionError.none = true
is_done _ = false

module _ (platform : Platform) where
  unfoldable pub fail_capture_call :
      Impl platform → WasapiCaptureError → platform.HResult → Bool × Impl platform
  fail_capture_call s default_error result =
      fail_with platform s
        (if is_device_invalidated platform result
          then WasapiCaptureError.device_invalidated
          else default_error)
        result

  -- `initialize` from the endpoint's configuration on
  unfoldable pub prepare_endpoint : Impl platform → Bool × Impl platform
  prepare_endpoint s =
      let (configuration, configured) = configure_current_endpoint platform s in
      let (transition, lifecycle) = Lifecycle.prepare configured.lifecycle in
      let prepared = record configured { lifecycle = lifecycle } in
      if not (is_no_error configuration.error)
      then fail_with platform configured configuration.error configuration.native_result
      else if not (is_done transition)
      then fail_with platform prepared WasapiCaptureError.invalid_state platform.e_unexpected
      else (true, prepared)

  -- `initialize` from the notification client on
  unfoldable pub register_client : Impl platform → Bool × Impl platform
  register_client s =
      let (made, made_world) = platform.new_notification_client s.world in
      let (result, world) = platform.register_notifications made_world in
      let registered = record s { notification_client = true; world = world } in
      if not made
      then fail_with platform (record s { world = made_world })
          WasapiCaptureError.endpoint_notification_client_creation_failed platform.e_outofmemory
      else if platform.failed result
      then fail_with platform registered
          WasapiCaptureError.endpoint_notification_registration_failed result
      else prepare_endpoint (record registered { notification_registered = true })

  unfoldable pub initialize : Impl platform → Bool × Impl platform
  initialize s =
      let cleared = clear_error platform s in
      let (com_result, com_world) = platform.co_initialize s.world in
      let (result, world) = platform.create_enumerator com_world in
      let created = record cleared { com_initialized = true; world = world } in
      if not (is_idle s.lifecycle)
      then fail_with platform s WasapiCaptureError.invalid_state platform.e_unexpected
      else if platform.failed com_result
      then fail_with platform (record cleared { world = com_world })
          WasapiCaptureError.com_initialization_failed com_result
      else if platform.failed result
      then fail_with platform created WasapiCaptureError.device_enumerator_creation_failed result
      else register_client (record created { device_enumerator = true })

  unfoldable pub start : Impl platform → Bool × Impl platform
  start s =
      let begun = reset_run_state platform s in
      let (result, world) = platform.start_client begun.world in
      let called = record begun { world = world } in
      let (transition, lifecycle) = Lifecycle.start called.lifecycle in
      let started = record called { audio_started = true; lifecycle = lifecycle } in
      if not (is_ready s.lifecycle)
      then fail_with platform s WasapiCaptureError.invalid_state platform.e_unexpected
      else if not s.normalization_supported
      then fail_with platform s WasapiCaptureError.unsupported_mix_format platform.e_invalidarg
      else if platform.failed result
      then fail_capture_call called WasapiCaptureError.stream_start_failed result
      else if not (is_done transition)
      then fail_with platform started WasapiCaptureError.invalid_state platform.e_unexpected
      else (true, clear_error platform started)

  unfoldable pub request_simulated_device_invalidation_for_probe :
      Impl platform → Bool × Impl platform
  request_simulated_device_invalidation_for_probe s =
      if not (is_running s.lifecycle)
      then fail_with platform s WasapiCaptureError.invalid_state platform.e_unexpected
      else (
        true,
        clear_error platform (queue_recovery platform s CaptureRecoveryTrigger.device_invalidated),
      )

  unfoldable pub stop : Impl platform → Bool × Impl platform
  stop s =
      let (result, world) = platform.stop_client s.world in
      let called = record s { world = world } in
      let (dropped, assembler) = Assembler.reset called.frame_assembler in
      let (transition, lifecycle) = Lifecycle.stop called.lifecycle in
      let stopped = record called {
        audio_started = false;
        frame_assembler = assembler;
        counters = count_dropped platform dropped called.counters;
        lifecycle = lifecycle;
      } in
      if not (is_running s.lifecycle)
      then fail_with platform s WasapiCaptureError.invalid_state platform.e_unexpected
      else if platform.failed result
      then fail_capture_call called WasapiCaptureError.stream_stop_failed result
      else if not (is_done transition)
      then fail_with platform stopped WasapiCaptureError.invalid_state platform.e_unexpected
      else (true, clear_error platform stopped)
