-- ===== src/Sender/Wasapi/Outcome.antt =====
-- wasapi_loopback_capture.cpp: how the restart after a device change ends.
use wiretone.Prelude.{
  ℕ, ◌+◌, ◌≡◌, refl, sym, subst, inl, inr, true, false, not, Bool-cases, if_elim, arith, [], Option,
}
use wiretone.Capture.Lifecycle.{CaptureState}
use wiretone.Capture.Lifecycle as Lifecycle
use wiretone.Capture.Recovery.{CaptureRecoveryState, begin_attempt, complete_failure}
use wiretone.Capture.Recovery.Bounded.{
  IsAccounted, complete_success-IsAccounted, complete_failure-IsAccounted,
}
use wiretone.Capture.Assembler.Types.{PcmFrameAssembler}
use wiretone.Capture.Assembler.Accept as Assembler
use wiretone.Sender.Wasapi.Platform.{Platform}
use wiretone.Sender.Wasapi.Types.{no_format, WasapiCaptureError, Impl}
use wiretone.Sender.Wasapi.Endpoint.{
  is_no_error, release_audio_resources, configure_current_endpoint, count_dropped, fail, fail_with,
  clear_error,
}
use wiretone.Sender.Wasapi.Configured.{
  configure_current_endpoint-Leaves, configure_current_endpoint-assembler,
}
use wiretone.Sender.Wasapi.Held.{IsHeld, configure_current_endpoint-Holds}
use wiretone.Sender.Wasapi.Recover.{
  is_pending, give_up, Attempt, ended, retried, retry_or_fail, resume, restart, reconfigure,
  recover_round,
}
use wiretone.Sender.Wasapi.UnderWay.{
  is_pending-eq, UnderWay, begin_attempt-UnderWay, complete_failure-attempts,
  complete_success-stable,
}

pub assembler_emptied : (a : PcmFrameAssembler) → (Assembler.reset a).1.pending_frames ≡ 0
unfolding Assembler.reset Assembler.discard_partial Assembler.clear_partial
assembler_emptied a = refl

partial_discarded : (a : PcmFrameAssembler) → (Assembler.discard_partial a).1.pending_frames ≡ 0
unfolding Assembler.discard_partial Assembler.clear_partial
partial_discarded a = refl

module _ (platform : Platform) where
  -- The last call of the platform has started a client.
  abbrev pub HasStarted : platform.World → Type 0
  HasStarted world =
      (before : platform.World) × (platform.failed (platform.start_client before).0 ≡ false)
      × (world ≡ (platform.start_client before).1)

  -- The capture goes on: a configured client has been started, with nothing pending, and the next
  -- packet is a discontinuity.
  pub record IsResumed (s : Impl platform) : Type 0 where
    pub stable : s.recovery.state ≡ CaptureRecoveryState.stable
    pub discontinuity : s.recovery.discontinuity_pending ≡ true
    pub frame : s.recovery_frame_pending ≡ true
    pub started : s.audio_started ≡ true
    pub client_started : HasStarted s.world
    pub held : IsHeld platform s
    pub nothing_pending : s.frame_assembler.pending_frames ≡ 0
    pub supported : s.normalization_supported ≡ true
    pub no_error : s.error ≡ WasapiCaptureError.none
    pub accounted : IsAccounted s.recovery

  -- The capture has failed: all that `release_audio_resources` releases is gone, and nothing is
  -- pending.
  pub record HasFailed (s : Impl platform) : Type 0 where
    pub failed : s.lifecycle ≡ CaptureState.failed
    pub stopped : s.audio_started ≡ false
    pub no_endpoint : s.endpoint ≡ false
    pub no_client : s.audio_client ≡ false
    pub no_capture : s.capture_client ≡ false
    pub no_mix_format : s.mix_format ≡ Option.none
    pub no_inspected : s.inspected_mix_format ≡ no_format
    pub no_name : s.endpoint_name ≡ ""
    pub no_id : s.endpoint_id ≡ ""
    pub no_buffer : s.endpoint_buffer_frames ≡ 0
    pub no_scratch : s.normalized_pcm_scratch ≡ []
    pub not_supported : s.normalization_supported ≡ false
    pub nothing_pending : s.frame_assembler.pending_frames ≡ 0
    pub accounted : IsAccounted s.recovery

  pub fail_with-HasFailed :
      (s : Impl platform) (e : WasapiCaptureError) (r : platform.HResult)
      → IsAccounted s.recovery
      → HasFailed (fail_with platform s e r).1
  unfolding fail release_audio_resources Lifecycle.fail
  fail_with-HasFailed s e r h = record {
    failed = refl;
    stopped = refl;
    no_endpoint = refl;
    no_client = refl;
    no_capture = refl;
    no_mix_format = refl;
    no_inspected = refl;
    no_name = refl;
    no_id = refl;
    no_buffer = refl;
    no_scratch = refl;
    not_supported = refl;
    nothing_pending = assembler_emptied s.frame_assembler;
    accounted = h;
  }

  -- How an attempt ends, with the count of attempts when it may be tried again.
  unfoldable pub GoesWell : ℕ → Attempt platform → Type 0
  GoesWell n (ended true s) = IsResumed s
  GoesWell n (ended false s) = HasFailed s
  GoesWell n (retried e r s) =
      (s.recovery.state ≡ CaptureRecoveryState.restart_pending)
      × IsAccounted s.recovery
      × (s.recovery.attempts_in_cycle ≡ n)

  give_up-GoesWell :
      (n : ℕ) (s : Impl platform) (e : WasapiCaptureError) (r : platform.HResult)
      → IsAccounted s.recovery
      → GoesWell n (give_up platform s e r)
  unfolding GoesWell fail
  give_up-GoesWell n s e r h = fail_with-HasFailed s e r h

  retry_or_fail-GoesWell :
      (n : ℕ) (s : Impl platform) (e : WasapiCaptureError) (r : platform.HResult)
      → UnderWay n s.recovery
      → GoesWell n (retry_or_fail platform s e r)
  unfolding GoesWell retry_or_fail
  retry_or_fail-GoesWell n s e r h =
      let accounted = complete_failure-IsAccounted s.recovery h.accounted true in
      elim (Bool-cases (is_pending (complete_failure s.recovery true).1.state)) [
        | inl again ↦ rw again (
          is_pending-eq (complete_failure s.recovery true).1.state again,
          accounted,
          complete_failure-attempts n s.recovery h,
        )
        | inr over ↦ rw over (
            give_up-GoesWell n (record s { recovery = (complete_failure s.recovery true).1 })
              WasapiCaptureError.recovery_restart_failed r accounted)
      ]

  -- All that is held to start, with nothing pending.
  abbrev IsReady : Impl platform → Type 0
  IsReady s = IsHeld platform s × (s.frame_assembler.pending_frames ≡ 0)

  resume-GoesWell :
      (n : ℕ) (s : Impl platform)
      → UnderWay n s.recovery
      → s.normalization_supported ≡ true
      → IsReady s
      → HasStarted s.world
      → GoesWell n (resume platform s)
  unfolding GoesWell resume clear_error
  resume-GoesWell n s h supported ready client_started =
      let (done, stable, discontinuity) = complete_success-stable n s.recovery h in
      rw (done) (record {
        stable = stable;
        discontinuity = discontinuity;
        frame = refl;
        started = refl;
        client_started = client_started;
        held = record {
          endpoint = ready.0.endpoint;
          audio_client = ready.0.audio_client;
          capture_client = ready.0.capture_client;
          mix_format = ready.0.mix_format;
        };
        nothing_pending = ready.1;
        supported = supported;
        no_error = refl;
        accounted = complete_success-IsAccounted s.recovery h.accounted;
      })

  restart-GoesWell :
      (n : ℕ) (s : Impl platform)
      → UnderWay n s.recovery
      → IsReady s
      → GoesWell n (restart platform s)
  unfolding restart
  restart-GoesWell n s h ready =
      if_elim (GoesWell n) (not s.normalization_supported)
        (λ _.
          give_up-GoesWell n (record s { recovery = (complete_failure s.recovery false).1 })
            WasapiCaptureError.recovery_unsupported_mix_format platform.e_invalidarg
            (complete_failure-IsAccounted s.recovery h.accounted false))
        (λ supported.
          if_elim (GoesWell n) (platform.failed (platform.start_client s.world).0)
            (λ _. retry_or_fail-GoesWell n _ _ _ h)
            (λ started.
              resume-GoesWell n (record s { world = (platform.start_client s.world).1 }) h
                (ground (arith, supported))
                (
                  record {
                    endpoint = ready.0.endpoint;
                    audio_client = ready.0.audio_client;
                    capture_client = ready.0.capture_client;
                    mix_format = ready.0.mix_format;
                  },
                  ready.1,
                )
                (s.world, started, refl)))

  reconfigure-GoesWell :
      (n : ℕ) (s : Impl platform) → UnderWay n s.recovery → GoesWell n (reconfigure platform s)
  unfolding reconfigure
  reconfigure-GoesWell n s h =
      let dropped = Assembler.discard_partial s.frame_assembler in
      let before : Impl platform = record s {
        frame_assembler = dropped.1;
        counters = count_dropped platform dropped.0 s.counters;
      } in
      let after = configure_current_endpoint platform before in
      let same = configure_current_endpoint-Leaves platform before in
      let under_way : UnderWay n after.1.recovery = subst (UnderWay n) (sym same) h in
      elim (Bool-cases (is_no_error after.0.error)) [
        | inl e ↦ rw e (
            restart-GoesWell n after.1 under_way (
              configure_current_endpoint-Holds platform before e,
              rw (configure_current_endpoint-assembler platform before)
                  (partial_discarded s.frame_assembler),
            ))
        | inr e ↦
            rw e (retry_or_fail-GoesWell n after.1 after.0.error after.0.native_result under_way)
      ]

  pub recover_round-GoesWell :
      (s : Impl platform)
      → IsAccounted s.recovery
      → s.recovery.state ≡ CaptureRecoveryState.restart_pending
      → GoesWell (s.recovery.attempts_in_cycle + 1) (recover_round platform s)
  unfolding recover_round
  recover_round-GoesWell s h pending =
      let (begun, under_way) = begin_attempt-UnderWay s.recovery h pending in
      rw begun (
        reconfigure-GoesWell (s.recovery.attempts_in_cycle + 1)
          (record s { recovery = (begin_attempt s.recovery).1 }) under_way)
