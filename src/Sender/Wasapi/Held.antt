-- ===== src/Sender/Wasapi/Held.antt =====
-- wasapi_loopback_capture.cpp: what `configure_current_endpoint` holds when it answers no error.
use wiretone.Prelude.{◌≡◌, refl, true, Option, if_elim, arith}
use wiretone.Sender.Wasapi.Platform.{Platform, WaveFormat}
use wiretone.Sender.Wasapi.Types.{Impl}
use wiretone.Sender.Wasapi.Endpoint.{
  is_no_error, Configured, release_audio_resources, read_buffer_size, initialize_client,
  take_mix_format, activate_client, read_name, open_endpoint, configure_current_endpoint,
}

module _ (platform : Platform) where
  -- The endpoint, the two clients and the format are there.
  pub record IsHeld (s : Impl platform) : Type 0 where
    pub endpoint : s.endpoint ≡ true
    pub audio_client : s.audio_client ≡ true
    pub capture_client : s.capture_client ≡ true
    pub mix_format : (format : WaveFormat) × (s.mix_format ≡ Option.some format)

  -- A configuration with no error holds them all.
  abbrev pub Holds : Configured platform → Type 0
  Holds configured = is_no_error configured.0.error ≡ true → IsHeld configured.1

  read_buffer_size-Holds :
      (format : WaveFormat) (s : Impl platform)
      → IsHeld s
      → Holds (read_buffer_size platform format s)
  unfolding read_buffer_size
  read_buffer_size-Holds format s h =
      if_elim Holds (platform.failed (platform.get_buffer_size s.world).0)
        (λ _ ok. absurd (ground (arith, ok)))
        (λ _ _. record {
          endpoint = h.endpoint;
          audio_client = h.audio_client;
          capture_client = h.capture_client;
          mix_format = h.mix_format;
        })

  initialize_client-Holds :
      (format : WaveFormat) (s : Impl platform)
      → s.endpoint ≡ true
      → s.audio_client ≡ true
      → s.mix_format ≡ Option.some format
      → Holds (initialize_client platform format s)
  unfolding initialize_client
  initialize_client-Holds format s e a m =
      let first = platform.initialize_client s.world in
      if_elim Holds (platform.failed first.0) (λ _ ok. absurd (ground (arith, ok)))
        (λ _.
          if_elim Holds (platform.failed (platform.get_service first.1).0)
            (λ _ ok. absurd (ground (arith, ok)))
            (λ _. read_buffer_size-Holds format _ (record {
              endpoint = e;
              audio_client = a;
              capture_client = refl;
              mix_format = (format, m);
            })))

  take_mix_format-Holds :
      (r : platform.HResult) (format : Option WaveFormat) (s : Impl platform)
      → s.endpoint ≡ true
      → s.audio_client ≡ true
      → Holds (take_mix_format platform r format s)
  unfolding take_mix_format
  take_mix_format-Holds r Option.none s e a = λ ok. absurd (ground (arith, ok))
  take_mix_format-Holds r (Option.some format) s e a =
      if_elim Holds (platform.failed r) (λ _ ok. absurd (ground (arith, ok)))
        (λ _. initialize_client-Holds format _ e a refl)

  activate_client-Holds :
      (s : Impl platform) → s.endpoint ≡ true → Holds (activate_client platform s)
  unfolding activate_client
  activate_client-Holds s e =
      if_elim Holds (platform.failed (platform.activate s.world).0)
        (λ _ ok. absurd (ground (arith, ok))) (λ _. take_mix_format-Holds _ _ _ e refl)

  read_name-Holds : (s : Impl platform) → s.endpoint ≡ true → Holds (read_name platform s)
  unfolding read_name
  read_name-Holds s e =
      let store = platform.open_property_store s.world in
      if_elim Holds (platform.failed store.0) (λ _ ok. absurd (ground (arith, ok)))
        (λ _.
          if_elim Holds (platform.failed (platform.get_friendly_name store.1).0)
            (λ _ ok. absurd (ground (arith, ok))) (λ _. activate_client-Holds _ e))

  open_endpoint-Holds : (s : Impl platform) → Holds (open_endpoint platform s)
  unfolding open_endpoint
  open_endpoint-Holds s =
      let default = platform.get_default_audio_endpoint s.world in
      if_elim Holds (platform.failed default.0) (λ _ ok. absurd (ground (arith, ok)))
        (λ _.
          if_elim Holds (platform.failed (platform.get_id default.1).0)
            (λ _ ok. absurd (ground (arith, ok))) (λ _. read_name-Holds _ refl))

  pub configure_current_endpoint-Holds :
      (s : Impl platform) → Holds (configure_current_endpoint platform s)
  configure_current_endpoint-Holds s = open_endpoint-Holds (release_audio_resources platform s)
