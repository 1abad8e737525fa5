-- ===== src/Sender/Wasapi/Endpoint.antt =====
-- wasapi_loopback_capture.cpp: the audio resources of the capture: `release_audio_resources`,
-- `configure_current_endpoint` and `fail`.
use wiretone.Prelude.{
  ℕ, ◌+◌, ◌%◌, ◌^◌, Bool, true, false, ◌&&◌, ◌||◌, [], Option, String, if◌then◌else◌, replicate,
}
use wiretone.Capture.Lifecycle as Lifecycle
use wiretone.Capture.CapturedPacket.Types.{CapturedPacketError, normalized_pcm_size_for_frames}
use wiretone.Capture.Assembler.Types.{PcmFrameAssemblerError}
use wiretone.Capture.Assembler.Accept as Assembler
use wiretone.Sender.Wasapi.Platform.{WaveFormat, Platform}
use wiretone.Sender.Wasapi.Types.{
  no_format, inspect_mix_format, supports_phase_2_2_normalization, WasapiCaptureError, Counters,
  Impl,
}

-- `++counter` on `std::uint64_t`
abbrev pub increment_u64 : ℕ → ℕ
increment_u64 counter = (counter + 1) % 2 ^ 64

abbrev pub is_no_error : WasapiCaptureError → Bool
is_no_error WasapiCaptureError.none = true
is_no_error _ = false

module _ (platform : Platform) where
  pub record EndpointConfigurationResult : Type 0 where
    pub error : WasapiCaptureError
    pub native_result : platform.HResult

  abbrev pub Configured : Type 0
  Configured = EndpointConfigurationResult × Impl platform

  abbrev stopped : WasapiCaptureError → platform.HResult → Impl platform → Configured
  stopped e r s = (record { error = e; native_result = r }, s)

  unfoldable pub release_audio_resources : Impl platform → Impl platform
  release_audio_resources s = record s {
    world = if s.audio_started && s.audio_client then (platform.stop_client s.world).1 else s.world;
    audio_started = false;
    capture_client = false;
    audio_client = false;
    endpoint = false;
    mix_format = Option.none;
    endpoint_name = "";
    endpoint_id = "";
    inspected_mix_format = no_format;
    endpoint_buffer_frames = 0;
    normalization_supported = false;
    normalized_pcm_scratch = [];
  }

  -- From `GetBufferSize` on, with the format that the client has been initialized with.
  unfoldable pub read_buffer_size : WaveFormat → Impl platform → Configured
  read_buffer_size format s =
      if platform.failed result
      then stopped WasapiCaptureError.buffer_size_failed result sized
      else stopped WasapiCaptureError.none platform.s_ok (record sized {
        normalization_supported = supported;
        normalized_pcm_scratch =
            if supported
            then replicate (normalized_pcm_size_for_frames frames) 0
            else sized.normalized_pcm_scratch;
      })
    where
      result : platform.HResult
      result = (platform.get_buffer_size s.world).0

      frames : ℕ
      frames = (platform.get_buffer_size s.world).1

      sized : Impl platform
      sized = record s {
        endpoint_buffer_frames = frames;
        world = (platform.get_buffer_size s.world).2;
      }

      supported : Bool
      supported = supports_phase_2_2_normalization s.inspected_mix_format format

  -- From `Initialize` on.
  unfoldable pub initialize_client : WaveFormat → Impl platform → Configured
  initialize_client format s =
      let (result, world) = platform.initialize_client s.world in
      let (service_result, service_world) = platform.get_service world in
      if platform.failed result
      then stopped WasapiCaptureError.loopback_initialization_failed result
          (record s { world = world })
      else if platform.failed service_result
      then stopped WasapiCaptureError.capture_service_failed service_result
          (record s { world = service_world })
      else read_buffer_size format (record s { world = service_world; capture_client = true })

  -- What `GetMixFormat` gives.
  unfoldable pub take_mix_format : platform.HResult → Option WaveFormat → Impl platform → Configured
  take_mix_format result Option.none s =
      stopped WasapiCaptureError.mix_format_failed
        (if platform.failed result then result else platform.e_pointer) s
  take_mix_format result (Option.some format) s =
      if platform.failed result
      then stopped WasapiCaptureError.mix_format_failed result
          (record s { mix_format = Option.some format })
      else initialize_client format (record s {
        mix_format = Option.some format;
        inspected_mix_format = inspect_mix_format format;
      })

  -- From `Activate` on.
  unfoldable pub activate_client : Impl platform → Configured
  activate_client s =
      let (result, world) = platform.activate s.world in
      let (format_result, format, format_world) = platform.get_mix_format world in
      if platform.failed result
      then stopped WasapiCaptureError.audio_client_activation_failed result
          (record s { world = world })
      else take_mix_format format_result format
          (record s { audio_client = true; world = format_world })

  -- A name that is no string leaves the old one.
  abbrev pub named : Option String → String → String
  named Option.none old = old
  named (Option.some name) old = name

  -- From `OpenPropertyStore` on.
  unfoldable pub read_name : Impl platform → Configured
  read_name s =
      let (result, world) = platform.open_property_store s.world in
      let (name_result, name, name_world) = platform.get_friendly_name world in
      if platform.failed result
      then stopped WasapiCaptureError.endpoint_property_store_failed result
          (record s { world = world })
      else if platform.failed name_result
      then stopped WasapiCaptureError.endpoint_name_failed name_result
          (record s { world = name_world })
      else activate_client
          (record s { endpoint_name = named name s.endpoint_name; world = name_world })

  -- From `GetDefaultAudioEndpoint` on.
  unfoldable pub open_endpoint : Impl platform → Configured
  open_endpoint s =
      let (result, world) = platform.get_default_audio_endpoint s.world in
      let (id_result, id, id_world) = platform.get_id world in
      if platform.failed result
      then stopped WasapiCaptureError.default_render_endpoint_failed result
          (record s { world = world })
      else if platform.failed id_result
      then stopped WasapiCaptureError.endpoint_id_failed id_result
          (record s { endpoint = true; world = id_world })
      else read_name (record s { endpoint = true; endpoint_id = id; world = id_world })

  abbrev pub configure_current_endpoint : Impl platform → Configured
  configure_current_endpoint s = open_endpoint (release_audio_resources s)

  -- The assembler loses the frame that it has begun, which is counted.
  unfoldable pub count_dropped : Bool → Counters → Counters
  count_dropped dropped c =
      if dropped
      then record c { dropped_partial_pcm_frames = increment_u64 c.dropped_partial_pcm_frames }
      else c

  unfoldable pub fail :
      Impl platform
      → WasapiCaptureError
      → platform.HResult
      → CapturedPacketError
      → PcmFrameAssemblerError
      → Bool × Impl platform
  fail s new_error result packet_error assembler_error =
      let released = release_audio_resources s in
      let (dropped, assembler) = Assembler.reset released.frame_assembler in
      (
        false,
        record released {
          frame_assembler = assembler;
          counters = count_dropped dropped released.counters;
          error = new_error;
          conversion_error = packet_error;
          frame_assembler_error = assembler_error;
          native_result = result;
          lifecycle = Lifecycle.fail released.lifecycle;
        },
      )

  -- `fail` with its default arguments
  abbrev pub fail_with :
      Impl platform → WasapiCaptureError → platform.HResult → Bool × Impl platform
  fail_with s new_error result =
      fail s new_error result CapturedPacketError.none PcmFrameAssemblerError.none

  abbrev pub is_device_invalidated : platform.HResult → Bool
  is_device_invalidated result =
      platform.is_device_invalidated result || platform.is_resources_invalidated result

  unfoldable pub clear_error : Impl platform → Impl platform
  clear_error s = record s {
    error = WasapiCaptureError.none;
    conversion_error = CapturedPacketError.none;
    frame_assembler_error = PcmFrameAssemblerError.none;
    native_result = platform.s_ok;
  }
