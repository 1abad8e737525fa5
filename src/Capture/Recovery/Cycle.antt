-- ===== src/Capture/Recovery/Cycle.antt =====
-- recovery.cpp: the attempts that are begun in a cycle, counted from outside the controller.
use wiretone.Prelude.{ℕ, ◌+◌, ◌≤◌, ◌≡◌, refl, Bool, true, false, if◌then◌else◌, arith}
use wiretone.Capture.Recovery.{
  CaptureRecoveryTrigger, CaptureRecoveryTransitionError, CaptureRecoveryController, note_trigger,
  request, begin_attempt_in, begin_attempt, complete_in, complete_success, complete_failure,
  consume_discontinuity, reset,
}
use wiretone.Capture.Recovery.Bounded.{
  IsAccounted, request-IsAccounted, begin_attempt-IsAccounted, complete_success-IsAccounted,
  complete_failure-IsAccounted, consume_discontinuity-IsAccounted,
}

abbrev is_taken : CaptureRecoveryTransitionError → Bool
is_taken CaptureRecoveryTransitionError.none = true
is_taken _ = false

-- The calls on a new controller, with the number of attempts that have been begun since it was new
-- or since the last success: a call that begins one adds it, whatever the controller counts.
pub data Began : CaptureRecoveryController → ℕ → Type 0 where
  new : Began reset 0
  requested :
      (c : CaptureRecoveryController) (n : ℕ) (trigger : CaptureRecoveryTrigger)
      → Began c n
      → Began (request c trigger).1 n
  begun :
      (c : CaptureRecoveryController) (n : ℕ)
      → Began c n
      → Began (begin_attempt c).1 (if is_taken (begin_attempt c).0 then n + 1 else n)
  succeeded :
      (c : CaptureRecoveryController) (n : ℕ)
      → Began c n
      → Began (complete_success c).1 (if is_taken (complete_success c).0 then 0 else n)
  failed :
      (c : CaptureRecoveryController) (n : ℕ) (retryable : Bool)
      → Began c n
      → Began (complete_failure c retryable).1 n
  consumed :
      (c : CaptureRecoveryController) (n : ℕ) → Began c n → Began (consume_discontinuity c).1 n

-- The controller after that many attempts.
pub record IsBounded (c : CaptureRecoveryController) (n : ℕ) : Type 0 where
  pub accounted : IsAccounted c
  pub counted : c.attempts_in_cycle ≡ n
  pub few : n ≤ 3

few_of_accounted : (c : CaptureRecoveryController) → IsAccounted c → c.attempts_in_cycle ≤ 3
few_of_accounted c h = ground (arith, h)

-- An accounted controller that counts the attempts bounds them.
bounded :
    (c : CaptureRecoveryController) (n : ℕ)
    → IsAccounted c
    → c.attempts_in_cycle ≡ n
    → IsBounded c n
bounded c n h e = record {
  accounted = h;
  counted = e;
  few = omega (arith, few_of_accounted c h, e);
}

module _ (c : CaptureRecoveryController) (n : ℕ) (h : IsBounded c n) where
  request-counted : (trigger : CaptureRecoveryTrigger) → (request c trigger).1.attempts_in_cycle ≡ n
  unfolding request note_trigger
  request-counted trigger = ground (arith, h)

  begin_attempt-counted :
      (begin_attempt c).1.attempts_in_cycle ≡ (if is_taken (begin_attempt c).0 then n + 1 else n)
  unfolding begin_attempt_in
  begin_attempt-counted = ground (arith, h)

  complete_success-counted :
      (complete_success c).1.attempts_in_cycle ≡ (if is_taken (complete_success c).0 then 0 else n)
  unfolding complete_success complete_in
  complete_success-counted = ground (arith, h)

  complete_failure-counted :
      (retryable : Bool) → (complete_failure c retryable).1.attempts_in_cycle ≡ n
  unfolding complete_failure complete_in
  complete_failure-counted retryable = ground (arith, h)

  consume_discontinuity-counted : (consume_discontinuity c).1.attempts_in_cycle ≡ n
  unfolding consume_discontinuity
  consume_discontinuity-counted = h.counted

-- However the operations are called on a new controller, at most three attempts are begun from one
-- success to the next: that many are counted in the cycle, the count fits the state, and every
-- attempt has succeeded, has failed or is under way, up to the wrap of the 64-bit counters.
pub Began-IsBounded : (c : CaptureRecoveryController) (n : ℕ) → Began c n → IsBounded c n
Began-IsBounded c n new = bounded reset 0 (record { fits = refl; attempts = refl }) refl
Began-IsBounded c n (requested b m trigger r) =
    let h = Began-IsBounded b m r in
    bounded _ m (request-IsAccounted b h.accounted trigger) (request-counted b m h trigger)
Began-IsBounded c n (begun b m r) =
    let h = Began-IsBounded b m r in
    bounded _ _ (begin_attempt-IsAccounted b h.accounted) (begin_attempt-counted b m h)
Began-IsBounded c n (succeeded b m r) =
    let h = Began-IsBounded b m r in
    bounded _ _ (complete_success-IsAccounted b h.accounted) (complete_success-counted b m h)
Began-IsBounded c n (failed b m retryable r) =
    let h = Began-IsBounded b m r in
    bounded _ m (complete_failure-IsAccounted b h.accounted retryable)
      (complete_failure-counted b m h retryable)
Began-IsBounded c n (consumed b m r) =
    let h = Began-IsBounded b m r in
    bounded _ m (consume_discontinuity-IsAccounted b h.accounted)
      (consume_discontinuity-counted b m h)
