-- ===== src/Sender/Wasapi/UnderWay.antt =====
-- wasapi_loopback_capture.cpp: an attempt to restart that is under way, by the controller's
-- state.
use wiretone.Prelude.{ℕ, ◌+◌, ◌≡◌, refl, true, arith}
use wiretone.Capture.Recovery.{
  CaptureRecoveryState, CaptureRecoveryController, begin_attempt_in, begin_attempt, complete_in,
  complete_success, complete_failure,
}
use wiretone.Capture.Recovery.Bounded.{IsAccounted, begin_attempt-IsAccounted, pending_few}
use wiretone.Sender.Wasapi.Recover.{is_none, is_pending}

pub is_pending-eq :
    (state : CaptureRecoveryState)
    → is_pending state ≡ true
    → state ≡ CaptureRecoveryState.restart_pending
is_pending-eq state e = ground (arith, e)

begin_attempt-restarting :
    (c : CaptureRecoveryController)
    → IsAccounted c
    → c.state ≡ CaptureRecoveryState.restart_pending
    → (is_none (begin_attempt c).0 ≡ true)
      × ((begin_attempt c).1.state ≡ CaptureRecoveryState.restarting)
      × ((begin_attempt c).1.attempts_in_cycle ≡ c.attempts_in_cycle + 1)
unfolding begin_attempt_in
begin_attempt-restarting c h pending =
    let few = pending_few c.state c.attempts_in_cycle pending h.fits in
    rw pending (ground (arith, few))

-- The attempt of that number is under way.
pub record UnderWay (n : ℕ) (c : CaptureRecoveryController) : Type 0 where
  pub restarting : c.state ≡ CaptureRecoveryState.restarting
  pub accounted : IsAccounted c
  pub attempt : c.attempts_in_cycle ≡ n

pub begin_attempt-UnderWay :
    (c : CaptureRecoveryController)
    → IsAccounted c
    → c.state ≡ CaptureRecoveryState.restart_pending
    → (is_none (begin_attempt c).0 ≡ true) × UnderWay (c.attempts_in_cycle + 1) (begin_attempt c).1
begin_attempt-UnderWay c h pending =
    let (begun, restarting, attempt) = begin_attempt-restarting c h pending in
    (
      begun,
      record {
        restarting = restarting;
        accounted = begin_attempt-IsAccounted c h;
        attempt = attempt;
      },
    )

pub complete_failure-attempts :
    (n : ℕ) (c : CaptureRecoveryController)
    → UnderWay n c
    → (complete_failure c true).1.attempts_in_cycle ≡ n
unfolding complete_failure complete_in
complete_failure-attempts n c h = rw (h.restarting) (h.attempt)

pub complete_success-stable :
    (n : ℕ) (c : CaptureRecoveryController)
    → UnderWay n c
    → (is_none (complete_success c).0 ≡ true)
      × ((complete_success c).1.state ≡ CaptureRecoveryState.stable)
      × ((complete_success c).1.discontinuity_pending ≡ true)
unfolding complete_success complete_in
complete_success-stable n c h = rw (h.restarting) (refl, refl, refl)
