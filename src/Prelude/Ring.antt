-- ===== src/Prelude/Ring.antt =====
-- A list used as a ring of the given size: the elements from a head on.
use Prim.Native.Nat.{ℕ, zero, suc, ◌+◌, ◌%◌, ◌<◌}
use mathlib.Core.Path.{◌≡◌, ◌∙◌, refl, sym}
use mathlib.Core.Logic.{◌≢◌}
use mathlib.Core.List.{List, [], ◌∷◌, ◌++◌}
use native.Mathlib.Omega.{arith}
use wiretone.Prelude.Lists.{length, get_or, set, get_or-set_self, get_or-set_ne}

module _ {ℓ} {A : Type ℓ} (capacity : ℕ) (d : A) where
  abbrev pub window : List A → ℕ → ℕ → List A
  window xs head zero = []
  window xs head (suc n) = get_or xs (head % capacity) d ∷ window xs (head + 1) n

  pub window-congruent :
      (xs : List A) (a b n : ℕ)
      → ((i : ℕ) → i < n → (a + i) % capacity ≡ (b + i) % capacity)
      → window xs a n ≡ window xs b n
  window-congruent xs a b zero e = refl
  window-congruent xs a b (suc n) e =
      let here = here_only in
      let rest = window-congruent xs (a + 1) (b + 1) n (λ i lt. next i lt) in rw (here, rest) refl
    where
      here_only : a % capacity ≡ b % capacity
      here_only =
          let ea : a + 0 ≡ a = omega arith in
          let eb : b + 0 ≡ b = omega arith in rw (sym ea, sym eb) (e 0 (omega arith))

      next : (i : ℕ) → i < n → (a + 1 + i) % capacity ≡ (b + 1 + i) % capacity
      next i lt =
          let ea : a + suc i ≡ a + 1 + i = omega arith in
          let eb : b + suc i ≡ b + 1 + i = omega arith in
          rw (sym ea, sym eb) (e (suc i) (omega arith))

  pub window-last :
      (xs : List A) (head n : ℕ)
      → window xs head (suc n) ≡ window xs head n ++ (get_or xs ((head + n) % capacity) d ∷ [])
  window-last xs head zero = let e : head + 0 ≡ head = omega arith in rw e refl
  window-last xs head (suc n) =
      let e : head + suc n ≡ head + 1 + n = omega arith in
      let ih = window-last xs (head + 1) n in rw (e, ih) refl

  pub window-set :
      (xs : List A) (head n j : ℕ) (v : A)
      → ((i : ℕ) → i < n → j ≢ (head + i) % capacity)
      → window (set xs j v) head n ≡ window xs head n
  window-set xs head zero j v other = refl
  window-set xs head (suc n) j v other =
      let rest = window-set xs (head + 1) n j v (λ i lt. next i lt) in
      let here = get_or-set_ne xs j (head % capacity) v d (first) in rw (here, rest) refl
    where
      first : j ≢ head % capacity
      first = let e : head + 0 ≡ head = omega arith in rw (sym e) (other 0 (omega arith))

      next : (i : ℕ) → i < n → j ≢ (head + 1 + i) % capacity
      next i lt =
          let e : head + suc i ≡ head + 1 + i = omega arith in
          rw (sym e) (other (suc i) (omega arith))

  pub length-window : (xs : List A) (head n : ℕ) → length (window xs head n) ≡ n
  length-window xs head zero = refl
  length-window xs head (suc n) = rw (length-window xs (head + 1) n) refl

  -- A value in the slot behind the last one is the window's new last value.
  pub window-insert :
      (xs : List A) (head n slot : ℕ) (v : A)
      → slot ≡ (head + n) % capacity
      → slot < length xs
      → ((i : ℕ) → i < n → slot ≢ (head + i) % capacity)
      → window (set xs slot v) head (suc n) ≡ window xs head n ++ (v ∷ [])
  window-insert xs head n slot v e fits apart =
      let here = get_or-set_self xs slot v d fits in
      let others = window-set xs head n slot v apart in
      window-last (set xs slot v) head n ∙ rw (sym e, here, others) refl
