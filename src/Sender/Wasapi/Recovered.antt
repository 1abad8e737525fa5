-- ===== src/Sender/Wasapi/Recovered.antt =====
-- wasapi_loopback_capture.cpp: `recover_if_requested` goes on with the capture, or has failed.
use wiretone.Prelude.{
  ℕ, zero, suc, ◌+◌, ◌≤◌, ◌≡◌, ◌≢◌, refl, ◌∙◌, Bool, true, false, not, Bool-cases, inl, inr, ◌==◌,
  if_elim, has_flag, arith,
}
use wiretone.Capture.Recovery.{CaptureRecoveryState, CaptureRecoveryTrigger}
use wiretone.Capture.Recovery.Bounded.{IsAccounted, request-IsAccounted, pending_few}
use wiretone.Sender.Wasapi.Platform.{Platform}
use wiretone.Sender.Wasapi.Types.{WasapiCaptureError, Impl}
use wiretone.Sender.Wasapi.Endpoint.{fail, fail_with}
use wiretone.Sender.Wasapi.Recover.{
  is_pending, Attempt, ended, retried, recover_round, after_round, recover_loop, request_trigger,
  recover_within, recover_if_requested,
}
use wiretone.Sender.Wasapi.Outcome.{
  IsResumed, HasFailed, fail_with-HasFailed, GoesWell, recover_round-GoesWell,
}
use wiretone.Sender.Wasapi.UnderWay.{is_pending-eq}

module _ (platform : Platform) where
  -- The capture goes on where the call returns true, and has failed where it returns false.
  abbrev pub Outcome : Bool × Impl platform → Type 0
  Outcome (true, s) = IsResumed platform s
  Outcome (false, s) = HasFailed platform s

  fail_with-Outcome :
      (s : Impl platform) (e : WasapiCaptureError) (r : platform.HResult)
      → IsAccounted s.recovery
      → Outcome (fail_with platform s e r)
  unfolding fail
  fail_with-Outcome s e r h = fail_with-HasFailed platform s e r h

  after_round-Outcome :
      (n : ℕ) (round : Attempt platform)
      (go_on : WasapiCaptureError → platform.HResult → Impl platform → Bool × Impl platform)
      → GoesWell platform n round
      → ((e : WasapiCaptureError) (r : platform.HResult) (s : Impl platform)
          → IsAccounted s.recovery
          → Outcome (go_on e r s))
      → Outcome (after_round platform round go_on)
  unfolding GoesWell
  after_round-Outcome n (ended true s) go_on h k = h
  after_round-Outcome n (ended false s) go_on h k = h
  after_round-Outcome n (retried e r s) go_on h k = k e r s h.1

  recover_loop-Outcome :
      (fuel : ℕ) (e : WasapiCaptureError) (r : platform.HResult) (s : Impl platform)
      → IsAccounted s.recovery
      → Outcome (recover_loop platform fuel e r s)
  unfolding recover_loop
  recover_loop-Outcome zero e r s h = fail_with-Outcome s e r h
  recover_loop-Outcome (suc fuel) e r s h =
      if_elim Outcome (is_pending s.recovery.state)
        (λ pending.
          after_round-Outcome (s.recovery.attempts_in_cycle + 1) (recover_round platform s)
            (recover_loop platform fuel)
            (recover_round-GoesWell platform s h (is_pending-eq s.recovery.state pending))
            (recover_loop-Outcome fuel))
        (λ _. fail_with-Outcome s e r h)

  after_round-same :
      (n : ℕ) (round : Attempt platform)
      (f g : WasapiCaptureError → platform.HResult → Impl platform → Bool × Impl platform)
      → GoesWell platform n round
      → ((e : WasapiCaptureError) (r : platform.HResult) (s : Impl platform)
          → IsAccounted s.recovery
          → s.recovery.state ≡ CaptureRecoveryState.restart_pending
          → s.recovery.attempts_in_cycle ≡ n
          → f e r s ≡ g e r s)
      → after_round platform round f ≡ after_round platform round g
  unfolding GoesWell
  after_round-same n (ended ok s) f g h k = refl
  after_round-same n (retried e r s) f g h k = k e r s h.1 h.0 h.2

  -- Fuel for the attempts that are left is enough: with more the loop does the same.
  pub recover_loop-fuel :
      (fuel : ℕ) (e : WasapiCaptureError) (r : platform.HResult) (s : Impl platform)
      → IsAccounted s.recovery
      → 3 ≤ fuel + s.recovery.attempts_in_cycle
      → recover_loop platform (suc fuel) e r s ≡ recover_loop platform fuel e r s
  unfolding recover_loop
  recover_loop-fuel zero e r s h enough = elim (Bool-cases (is_pending s.recovery.state)) [
    | inr over ↦ rw over refl
    | inl pending ↦
        let few =
          pending_few s.recovery.state s.recovery.attempts_in_cycle
            (is_pending-eq s.recovery.state pending) h.fits in
        absurd (omega arith)
  ]
  recover_loop-fuel (suc fuel) e r s h enough = elim (Bool-cases (is_pending s.recovery.state)) [
    | inr over ↦ rw over refl
    | inl pending ↦ rw pending (
        after_round-same (s.recovery.attempts_in_cycle + 1) (recover_round platform s)
          (recover_loop platform (suc fuel)) (recover_loop platform fuel)
          (recover_round-GoesWell platform s h (is_pending-eq s.recovery.state pending))
          (λ e2 r2 s2 h2 p2 n2. recover_loop-fuel fuel e2 r2 s2 h2 (omega arith)))
  ]

  request_trigger-IsAccounted :
      (asked : Bool) (trigger : CaptureRecoveryTrigger) (s : Impl platform)
      → IsAccounted s.recovery
      → IsAccounted (request_trigger platform asked trigger s).1.recovery
  unfolding request_trigger
  request_trigger-IsAccounted true trigger s h = request-IsAccounted s.recovery h trigger
  request_trigger-IsAccounted false trigger s h = h

  recover_loop-enough :
      (fuel : ℕ) (e : WasapiCaptureError) (r : platform.HResult) (s : Impl platform)
      → IsAccounted s.recovery
      → 3 ≤ fuel
      → recover_loop platform fuel e r s ≡ recover_loop platform 3 e r s
  recover_loop-enough (suc (suc (suc zero))) e r s h enough = refl
  recover_loop-enough (suc (suc (suc (suc extra)))) e r s h enough =
      recover_loop-fuel (suc (suc (suc extra))) e r s h (omega arith)
      ∙ recover_loop-enough (suc (suc (suc extra))) e r s h (omega arith)
  recover_loop-enough (suc (suc zero)) e r s h enough = absurd (omega arith)
  recover_loop-enough (suc zero) e r s h enough = absurd (omega arith)
  recover_loop-enough zero e r s h enough = absurd (omega arith)

  -- The state once the triggers of the flags have been taken.
  abbrev triggered : Impl platform → Impl platform
  triggered s =
      (request_trigger platform (has_flag s.pending_recovery_flags 2)
        CaptureRecoveryTrigger.default_device_changed
        (request_trigger platform (has_flag s.pending_recovery_flags 1)
          CaptureRecoveryTrigger.device_invalidated (record s { pending_recovery_flags = 0 })).1).1

  triggered-IsAccounted :
      (s : Impl platform) → IsAccounted s.recovery → IsAccounted (triggered s).recovery
  triggered-IsAccounted s h =
      request_trigger-IsAccounted (has_flag s.pending_recovery_flags 2)
        CaptureRecoveryTrigger.default_device_changed _
        (request_trigger-IsAccounted (has_flag s.pending_recovery_flags 1)
          CaptureRecoveryTrigger.device_invalidated (record s { pending_recovery_flags = 0 }) h)

  recover_within-enough :
      (fuel : ℕ) (s : Impl platform)
      → IsAccounted s.recovery
      → 3 ≤ fuel
      → recover_within platform fuel s ≡ recover_if_requested platform s
  unfolding recover_within
  recover_within-enough fuel s h enough =
      rw
        (recover_loop-enough fuel WasapiCaptureError.recovery_restart_failed platform.e_fail
          (triggered s) (triggered-IsAccounted s h) enough)
        refl

  recovered :
      (s : Impl platform)
      → IsAccounted s.recovery
      → s.pending_recovery_flags ≢ 0
      → Outcome (recover_if_requested platform s)
  unfolding recover_within
  recovered s h some =
      let taken : Impl platform = record s { pending_recovery_flags = 0 } in
      let first =
        request_trigger platform (has_flag s.pending_recovery_flags 1)
          CaptureRecoveryTrigger.device_invalidated taken in
      let second =
        request_trigger platform (has_flag s.pending_recovery_flags 2)
          CaptureRecoveryTrigger.default_device_changed first.1 in
      let first_accounted =
        request_trigger-IsAccounted (has_flag s.pending_recovery_flags 1)
          CaptureRecoveryTrigger.device_invalidated taken h in
      let second_accounted =
        request_trigger-IsAccounted (has_flag s.pending_recovery_flags 2)
          CaptureRecoveryTrigger.default_device_changed first.1 first_accounted in
      if_elim Outcome (s.pending_recovery_flags == 0) (λ none. absurd (some (ground (arith, none))))
        (λ _.
          if_elim Outcome (not first.0) (λ _. fail_with-Outcome first.1 _ _ first_accounted)
            (λ _.
              if_elim Outcome (not second.0) (λ _. fail_with-Outcome second.1 _ _ second_accounted)
                (λ _. recover_loop-Outcome 3 _ _ second.1 second_accounted)))

  -- With a recovery requested and its attempts accounted for, `recover_if_requested` returns by its
  -- own tests: whatever number of rounds from three on its loop is given, the result is the same. Where it returns true, the
  -- last call of the platform has started a client with success, the endpoint, the two clients and
  -- a supported format are held, the recovery is stable, no sample is pending, and the next packet
  -- and the next frame are due to be marked. Where it returns false, the capture has failed, and
  -- all that `release_audio_resources` releases is gone, with no sample pending.
  pub recover_if_requested-Outcome :
      (fuel : ℕ) (s : Impl platform)
      → IsAccounted s.recovery
      → s.pending_recovery_flags ≢ 0
      → 3 ≤ fuel
      → Outcome (recover_if_requested platform s)
        × (recover_within platform fuel s ≡ recover_if_requested platform s)
  recover_if_requested-Outcome fuel s h some enough =
      (recovered s h some, recover_within-enough fuel s h enough)
