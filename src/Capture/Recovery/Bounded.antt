-- ===== src/Capture/Recovery/Bounded.antt =====
-- recovery.cpp: the attempts of a cycle are bounded, and accounted for.
use wiretone.Prelude.{ℕ, zero, suc, ◌+◌, ◌%◌, ◌^◌, ◌≤◌, ◌≡◌, ◌≢◌, refl, Bool, true, arith}
use wiretone.Capture.Recovery.{
  CaptureRecoveryState, CaptureRecoveryTrigger, CaptureRecoveryTransitionError,
  CaptureRecoveryController, note_trigger, request, begin_attempt_in, begin_attempt, complete_in,
  complete_success, complete_failure, consume_discontinuity, reset,
}

-- One attempt is under way.
abbrev pub under_way : CaptureRecoveryState → ℕ
under_way CaptureRecoveryState.restarting = 1
under_way _ = 0

-- The attempts that a state allows to have been made in the cycle.
abbrev pub FitsState : CaptureRecoveryState → ℕ → Type 0
FitsState CaptureRecoveryState.stable n = n ≡ 0
FitsState CaptureRecoveryState.restart_pending n = n ≤ 2
FitsState CaptureRecoveryState.restarting n = (1 ≤ n) × (n ≤ 3)
FitsState CaptureRecoveryState.failed n = (1 ≤ n) × (n ≤ 3)

-- The attempts of the cycle fit the state, and every attempt that was begun has succeeded, has
-- failed or is under way, up to the counters' wrap.
pub record IsAccounted (c : CaptureRecoveryController) : Type 0 where
  pub fits : FitsState c.state c.attempts_in_cycle
  pub attempts :
      c.restart_attempts ≡ (c.successful_restarts + c.failed_restarts + under_way c.state) % 2 ^ 64

-- A call of one operation takes a controller to the controller after it.
pub data Calls : CaptureRecoveryController → Type 0 where
  new : Calls reset
  requested :
      (c : CaptureRecoveryController) (trigger : CaptureRecoveryTrigger)
      → Calls c
      → Calls (request c trigger).1
  begun : (c : CaptureRecoveryController) → Calls c → Calls (begin_attempt c).1
  succeeded : (c : CaptureRecoveryController) → Calls c → Calls (complete_success c).1
  failed :
      (c : CaptureRecoveryController) (retryable : Bool)
      → Calls c
      → Calls (complete_failure c retryable).1
  consumed : (c : CaptureRecoveryController) → Calls c → Calls (consume_discontinuity c).1

module _ (c : CaptureRecoveryController) (h : IsAccounted c) where
  pub request-IsAccounted : (trigger : CaptureRecoveryTrigger) → IsAccounted (request c trigger).1
  unfolding request note_trigger
  request-IsAccounted trigger = ground (arith, h)

  pub begin_attempt-IsAccounted : IsAccounted (begin_attempt c).1
  unfolding begin_attempt_in
  begin_attempt-IsAccounted = ground (arith, h)

  pub complete_success-IsAccounted : IsAccounted (complete_success c).1
  unfolding complete_success complete_in
  complete_success-IsAccounted = ground (arith, h)

  pub complete_failure-IsAccounted :
      (retryable : Bool) → IsAccounted (complete_failure c retryable).1
  unfolding complete_failure complete_in
  complete_failure-IsAccounted retryable = ground (arith, h)

  pub consume_discontinuity-IsAccounted : IsAccounted (consume_discontinuity c).1
  unfolding consume_discontinuity
  consume_discontinuity-IsAccounted = ground (arith, h)

pub Calls-IsAccounted : (c : CaptureRecoveryController) → Calls c → IsAccounted c
Calls-IsAccounted c new = record { fits = refl; attempts = refl }
Calls-IsAccounted c (requested b trigger r) = request-IsAccounted b (Calls-IsAccounted b r) trigger
Calls-IsAccounted c (begun b r) = begin_attempt-IsAccounted b (Calls-IsAccounted b r)
Calls-IsAccounted c (succeeded b r) = complete_success-IsAccounted b (Calls-IsAccounted b r)
Calls-IsAccounted c (failed b retryable r) =
    complete_failure-IsAccounted b (Calls-IsAccounted b r) retryable
Calls-IsAccounted c (consumed b r) = consume_discontinuity-IsAccounted b (Calls-IsAccounted b r)

-- `attempts_exhausted` is never answered: the controller has failed before it would be.
pub begin_attempt-never_exhausted :
    (c : CaptureRecoveryController)
    → Calls c
    → (begin_attempt c).0 ≢ CaptureRecoveryTransitionError.attempts_exhausted
unfolding begin_attempt_in
begin_attempt-never_exhausted c r e = let h = Calls-IsAccounted c r in ground (arith, h)

-- An attempt that is begun and fails in a way that allows another.
unfoldable pub fail_attempt : CaptureRecoveryController → CaptureRecoveryController
fail_attempt c = (complete_failure (begin_attempt c).1 true).1

fail_attempt-step :
    (c : CaptureRecoveryController)
    → c.state ≡ CaptureRecoveryState.restart_pending
    → c.attempts_in_cycle ≤ 1
    → ((fail_attempt c).state ≡ CaptureRecoveryState.restart_pending)
      × ((fail_attempt c).attempts_in_cycle ≡ c.attempts_in_cycle + 1)
unfolding fail_attempt complete_failure complete_in begin_attempt_in
fail_attempt-step c e few = rw e (ground arith)

fail_attempt-last :
    (c : CaptureRecoveryController)
    → c.state ≡ CaptureRecoveryState.restart_pending
    → c.attempts_in_cycle ≡ 2
    → (fail_attempt c).state ≡ CaptureRecoveryState.failed
unfolding fail_attempt complete_failure complete_in begin_attempt_in
fail_attempt-last c e two = rw e (ground arith)

fail_attempt-failed :
    (c : CaptureRecoveryController)
    → c.state ≡ CaptureRecoveryState.failed
    → (fail_attempt c).state ≡ CaptureRecoveryState.failed
unfolding fail_attempt complete_failure complete_in begin_attempt_in
fail_attempt-failed c e = rw e (ground arith)

fail_thrice :
    (c : CaptureRecoveryController) (n : ℕ)
    → c.state ≡ CaptureRecoveryState.restart_pending
    → c.attempts_in_cycle ≡ n
    → n ≤ 2
    → (fail_attempt (fail_attempt (fail_attempt c))).state ≡ CaptureRecoveryState.failed
fail_thrice c zero e k few =
    let (e1, k1) = fail_attempt-step c e (omega arith) in
    let (e2, k2) = fail_attempt-step (fail_attempt c) e1 (omega arith) in
    fail_attempt-last (fail_attempt (fail_attempt c)) e2 (omega arith)
fail_thrice c (suc zero) e k few =
    let (e1, k1) = fail_attempt-step c e (omega arith) in
    fail_attempt-failed _ (fail_attempt-last (fail_attempt c) e1 (omega arith))
fail_thrice c (suc (suc n)) e k few =
    fail_attempt-failed _ (fail_attempt-failed _ (fail_attempt-last c e (omega arith)))

pub pending_few :
    (s : CaptureRecoveryState) (n : ℕ)
    → s ≡ CaptureRecoveryState.restart_pending
    → FitsState s n
    → n ≤ 2
pending_few s n e fits = ground (arith, fits)

-- A reachable controller that waits for a restart has failed after three attempts that are begun
-- and fail, however retryable their failures are.
pub fail_attempt-bounded :
    (c : CaptureRecoveryController)
    → Calls c
    → c.state ≡ CaptureRecoveryState.restart_pending
    → (fail_attempt (fail_attempt (fail_attempt c))).state ≡ CaptureRecoveryState.failed
fail_attempt-bounded c r e =
    fail_thrice c c.attempts_in_cycle e refl
      (pending_few c.state c.attempts_in_cycle e (Calls-IsAccounted c r).fits)
