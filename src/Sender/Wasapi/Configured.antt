-- ===== src/Sender/Wasapi/Configured.antt =====
-- wasapi_loopback_capture.cpp: what `configure_current_endpoint` leaves as it was.
use wiretone.Prelude.{◌≡◌, refl, ap, inl, inr, Bool-cases, Option}
use wiretone.Capture.Recovery.{CaptureRecoveryController}
use wiretone.Capture.Assembler.Types.{PcmFrameAssembler}
use wiretone.Sender.Wasapi.Platform.{Platform, WaveFormat}
use wiretone.Sender.Wasapi.Types.{Impl}
use wiretone.Sender.Wasapi.Endpoint.{
  Configured, release_audio_resources, read_buffer_size, initialize_client, take_mix_format,
  activate_client, read_name, open_endpoint, configure_current_endpoint,
}

module _ (platform : Platform) where
  abbrev kept : Impl platform → CaptureRecoveryController × PcmFrameAssembler
  kept s = (s.recovery, s.frame_assembler)

  -- A configuration that leaves the recovery and the assembler as they were.
  abbrev Leaves : CaptureRecoveryController × PcmFrameAssembler → Configured platform → Type 0
  Leaves before configured = kept configured.1 ≡ before

  read_buffer_size-Leaves :
      (format : WaveFormat) (s : Impl platform)
      → Leaves (kept s) (read_buffer_size platform format s)
  unfolding read_buffer_size
  read_buffer_size-Leaves format s =
      elim (Bool-cases (platform.failed ((platform.get_buffer_size s.world).0))) [
        | inl e ↦ rw e refl
        | inr e ↦ rw e (refl)
      ]

  initialize_client-Leaves :
      (format : WaveFormat) (s : Impl platform)
      → Leaves (kept s) (initialize_client platform format s)
  unfolding initialize_client
  initialize_client-Leaves format s =
      elim (Bool-cases (platform.failed (platform.initialize_client s.world).0)) [
        | inl e ↦ rw e refl
        | inr e ↦
            elim (Bool-cases
              (platform.failed (platform.get_service (platform.initialize_client s.world).1).0)) [
                | inl f ↦ rw (e, f) refl
                | inr f ↦ rw (e, f) (read_buffer_size-Leaves format _)
              ]
      ]

  take_mix_format-Leaves :
      (r : platform.HResult) (format : Option WaveFormat) (s : Impl platform)
      → Leaves (kept s) (take_mix_format platform r format s)
  unfolding take_mix_format
  take_mix_format-Leaves r Option.none s = refl
  take_mix_format-Leaves r (Option.some format) s = elim (Bool-cases (platform.failed (r))) [
    | inl e ↦ rw e refl
    | inr e ↦ rw e (initialize_client-Leaves format _)
  ]

  activate_client-Leaves : (s : Impl platform) → Leaves (kept s) (activate_client platform s)
  unfolding activate_client
  activate_client-Leaves s = elim (Bool-cases (platform.failed (platform.activate s.world).0)) [
    | inl e ↦ rw e refl
    | inr e ↦ rw e (take_mix_format-Leaves _ _ _)
  ]

  read_name-Leaves : (s : Impl platform) → Leaves (kept s) (read_name platform s)
  unfolding read_name
  read_name-Leaves s =
      elim (Bool-cases (platform.failed (platform.open_property_store s.world).0)) [
        | inl e ↦ rw e refl
        | inr e ↦
            elim (Bool-cases (
              platform.failed
                (platform.get_friendly_name (platform.open_property_store s.world).1).0)) [
                  | inl f ↦ rw (e, f) refl
                  | inr f ↦ rw (e, f) (activate_client-Leaves _)
                ]
      ]

  open_endpoint-Leaves : (s : Impl platform) → Leaves (kept s) (open_endpoint platform s)
  unfolding open_endpoint
  open_endpoint-Leaves s =
      elim (Bool-cases (platform.failed (platform.get_default_audio_endpoint s.world).0)) [
        | inl e ↦ rw e refl
        | inr e ↦
            elim (Bool-cases (
              platform.failed
                (platform.get_id (platform.get_default_audio_endpoint s.world).1).0)) [
                  | inl f ↦ rw (e, f) refl
                  | inr f ↦ rw (e, f) (read_name-Leaves _)
                ]
      ]

  configures-Leaves : (s : Impl platform) → Leaves (kept s) (configure_current_endpoint platform s)
  unfolding release_audio_resources
  configures-Leaves s = open_endpoint-Leaves (release_audio_resources platform s)

  pub configure_current_endpoint-Leaves :
      (s : Impl platform) → (configure_current_endpoint platform s).1.recovery ≡ s.recovery
  configure_current_endpoint-Leaves s = ap (λ k. k.0) (configures-Leaves s)

  pub configure_current_endpoint-assembler :
      (s : Impl platform)
      → (configure_current_endpoint platform s).1.frame_assembler ≡ s.frame_assembler
  configure_current_endpoint-assembler s = ap (λ k. k.1) (configures-Leaves s)
