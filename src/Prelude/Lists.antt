-- ===== src/Prelude/Lists.antt =====
-- Arrays and spans as lists with native indices, under the library's names.
use Prim.Native.Nat.{ℕ, zero, suc, ◌+◌, ◌-◌, ◌≤◌, ◌<◌, min}
use mathlib.Core.Path.{◌≡◌, refl, ap, sym, ◌∙◌}
use mathlib.Core.Logic.{◌≢◌}
use mathlib.Core.List.{List, [], ◌∷◌, ◌++◌, append_assoc}
use native.Mathlib.Omega.{arith}

module _ {ℓ} {A : Type ℓ} where
  abbrev pub length : List A → ℕ
  length [] = 0
  length (_ ∷ xs) = suc (length xs)

  -- A read out of bounds gives the default.
  abbrev pub get_or : List A → ℕ → A → A
  get_or [] _ d = d
  get_or (x ∷ _) zero _ = x
  get_or (_ ∷ xs) (suc i) d = get_or xs i d

  -- A write out of bounds changes nothing.
  abbrev pub set : List A → ℕ → A → List A
  set [] _ _ = []
  set (_ ∷ xs) zero v = v ∷ xs
  set (x ∷ xs) (suc i) v = x ∷ set xs i v

  abbrev pub take : ℕ → List A → List A
  take zero _ = []
  take (suc n) [] = []
  take (suc n) (x ∷ xs) = x ∷ take n xs

  abbrev pub drop : ℕ → List A → List A
  drop zero xs = xs
  drop (suc n) [] = []
  drop (suc n) (x ∷ xs) = drop n xs

  abbrev pub replicate : ℕ → A → List A
  replicate zero _ = []
  replicate (suc n) a = a ∷ replicate n a

  abbrev pub All {κ} : (A → Type κ) → List A → Type κ
  All P [] = Unit {κ}
  All P (x ∷ xs) = P x × All P xs

  -- `std::fill_n(xs.begin(), n, a)`
  abbrev pub fill_n : List A → ℕ → A → List A
  fill_n xs zero a = xs
  fill_n [] (suc n) a = []
  fill_n (_ ∷ xs) (suc n) a = a ∷ fill_n xs n a

  -- `std::copy` of the last argument into the first from an index on; what would fall
  -- behind the end is dropped.
  abbrev pub copy_into : List A → ℕ → List A → List A
  copy_into [] _ _ = []
  copy_into (d ∷ ds) zero [] = d ∷ ds
  copy_into (d ∷ ds) zero (s ∷ ss) = s ∷ copy_into ds zero ss
  copy_into (d ∷ ds) (suc i) ss = d ∷ copy_into ds i ss

module _ {ℓ} {A : Type ℓ} where
  pub length-append : (xs ys : List A) → length (xs ++ ys) ≡ length xs + length ys
  length-append [] ys = omega arith
  length-append (x ∷ xs) ys = omega (arith, length-append xs ys)

  pub length-set : (xs : List A) (i : ℕ) (v : A) → length (set xs i v) ≡ length xs
  length-set [] i v = refl
  length-set (x ∷ xs) zero v = refl
  length-set (x ∷ xs) (suc i) v = ap suc (length-set xs i v)

  pub get_or-set_self :
      (xs : List A) (i : ℕ) (v d : A) → i < length xs → get_or (set xs i v) i d ≡ v
  get_or-set_self [] i v d h = absurd (omega arith)
  get_or-set_self (x ∷ xs) zero v d h = refl
  get_or-set_self (x ∷ xs) (suc i) v d h = get_or-set_self xs i v d (omega arith)

  pub get_or-set_ne :
      (xs : List A) (i j : ℕ) (v d : A) → i ≢ j → get_or (set xs i v) j d ≡ get_or xs j d
  get_or-set_ne [] i j v d h = refl
  get_or-set_ne (x ∷ xs) zero zero v d h = absurd (h refl)
  get_or-set_ne (x ∷ xs) zero (suc j) v d h = refl
  get_or-set_ne (x ∷ xs) (suc i) zero v d h = refl
  get_or-set_ne (x ∷ xs) (suc i) (suc j) v d h = get_or-set_ne xs i j v d (λ e. h (ap suc e))

  pub length-take : (n : ℕ) (xs : List A) → length (take n xs) ≡ min n (length xs)
  length-take zero xs = omega arith
  length-take (suc n) [] = omega arith
  length-take (suc n) (x ∷ xs) = omega (arith, length-take n xs)

  pub length-drop : (n : ℕ) (xs : List A) → length (drop n xs) ≡ length xs - n
  length-drop zero xs = omega arith
  length-drop (suc n) [] = omega arith
  length-drop (suc n) (x ∷ xs) = omega (arith, length-drop n xs)

  pub length-replicate : (n : ℕ) (a : A) → length (replicate n a) ≡ n
  length-replicate zero a = refl
  length-replicate (suc n) a = ap suc (length-replicate n a)

  pub fill_n-eq-replicate :
      (xs : List A) (n : ℕ) (a : A) → n ≤ length xs → fill_n xs n a ≡ replicate n a ++ drop n xs
  fill_n-eq-replicate xs zero a h = refl
  fill_n-eq-replicate [] (suc n) a h = absurd (omega arith)
  fill_n-eq-replicate (x ∷ xs) (suc n) a h = ap (◌∷◌ a) (fill_n-eq-replicate xs n a (omega arith))

  pub length-copy_into :
      (ds : List A) (i : ℕ) (ss : List A) → length (copy_into ds i ss) ≡ length ds
  length-copy_into [] i ss = refl
  length-copy_into (d ∷ ds) zero [] = refl
  length-copy_into (d ∷ ds) zero (s ∷ ss) = ap suc (length-copy_into ds zero ss)
  length-copy_into (d ∷ ds) (suc i) ss = ap suc (length-copy_into ds i ss)

  pub copy_into_zero :
      (ds ss : List A) → length ss ≤ length ds → copy_into ds 0 ss ≡ ss ++ drop (length ss) ds
  copy_into_zero [] [] h = refl
  copy_into_zero [] (s ∷ ss) h = absurd (omega arith)
  copy_into_zero (d ∷ ds) [] h = refl
  copy_into_zero (d ∷ ds) (s ∷ ss) h = ap (◌∷◌ s) (copy_into_zero ds ss (omega arith))

  pub take-append : (xs ys : List A) (n : ℕ) → length xs ≡ n → take n (xs ++ ys) ≡ xs
  take-append [] ys zero h = refl
  take-append [] ys (suc n) h = absurd (omega arith)
  take-append (x ∷ xs) ys zero h = absurd (omega arith)
  take-append (x ∷ xs) ys (suc n) h = ap (◌∷◌ x) (take-append xs ys n (omega arith))

  pub take-append-drop : (n : ℕ) (xs : List A) → take n xs ++ drop n xs ≡ xs
  take-append-drop zero xs = refl
  take-append-drop (suc n) [] = refl
  take-append-drop (suc n) (x ∷ xs) = ap (◌∷◌ x) (take-append-drop n xs)

  pub take_all : (n : ℕ) (xs : List A) → length xs ≤ n → take n xs ≡ xs
  take_all zero [] h = refl
  take_all zero (x ∷ xs) h = absurd (omega arith)
  take_all (suc n) [] h = refl
  take_all (suc n) (x ∷ xs) h = ap (◌∷◌ x) (take_all n xs (omega arith))

  pub ext_get_or :
      (d : A) (xs ys : List A)
      → length xs ≡ length ys
      → ((k : ℕ) → k < length xs → get_or xs k d ≡ get_or ys k d)
      → xs ≡ ys
  ext_get_or d [] [] e h = refl
  ext_get_or d [] (y ∷ ys) e h = absurd (omega arith)
  ext_get_or d (x ∷ xs) [] e h = absurd (omega arith)
  ext_get_or d (x ∷ xs) (y ∷ ys) e h =
      ap₂' (h 0 (omega arith)) (ext_get_or d xs ys (omega arith) (λ k lt. h (suc k) (omega arith)))
    where
      ap₂' : x ≡ y → xs ≡ ys → x ∷ xs ≡ y ∷ ys
      ap₂' p q = cc

  pub get_or-take : (n k : ℕ) (xs : List A) (d : A) → k < n → get_or (take n xs) k d ≡ get_or xs k d
  get_or-take zero k xs d h = absurd (omega arith)
  get_or-take (suc n) k [] d h = refl
  get_or-take (suc n) zero (x ∷ xs) d h = refl
  get_or-take (suc n) (suc k) (x ∷ xs) d h = get_or-take n k xs d (omega arith)

  pub get_or-drop : (n k : ℕ) (xs : List A) (d : A) → get_or (drop n xs) k d ≡ get_or xs (n + k) d
  get_or-drop zero k xs d = ap (λ i. get_or xs i d) (omega arith)
  get_or-drop (suc n) k [] d = refl
  get_or-drop (suc n) k (x ∷ xs) d =
      let e : suc n + k ≡ suc (n + k) = omega arith in rw e (get_or-drop n k xs d)

  -- Inside the copied range the source shows, elsewhere the old contents.
  pub get_or-copy_into_in :
      (ds : List A) (i : ℕ) (ss : List A) (k : ℕ) (d : A)
      → k < length ss
      → i + k < length ds
      → get_or (copy_into ds i ss) (i + k) d ≡ get_or ss k d
  get_or-copy_into_in [] i ss k d h l = absurd (omega arith)
  get_or-copy_into_in (x ∷ ds) zero [] k d h l = absurd (omega arith)
  get_or-copy_into_in (x ∷ ds) zero (s ∷ ss) zero d h l = refl
  get_or-copy_into_in (x ∷ ds) zero (s ∷ ss) (suc k) d h l =
      let e : zero + suc k ≡ suc (zero + k) = omega arith in
      rw e (get_or-copy_into_in ds zero ss k d (omega arith) (omega arith))
  get_or-copy_into_in (x ∷ ds) (suc i) ss k d h l =
      let e : suc i + k ≡ suc (i + k) = omega arith in
      rw e (get_or-copy_into_in ds i ss k d h (omega arith))

  pub get_or-copy_into_below :
      (ds : List A) (i : ℕ) (ss : List A) (k : ℕ) (d : A)
      → k < i
      → get_or (copy_into ds i ss) k d ≡ get_or ds k d
  get_or-copy_into_below [] i ss k d h = refl
  get_or-copy_into_below (x ∷ ds) zero ss k d h = absurd (omega arith)
  get_or-copy_into_below (x ∷ ds) (suc i) ss zero d h = refl
  get_or-copy_into_below (x ∷ ds) (suc i) ss (suc k) d h =
      get_or-copy_into_below ds i ss k d (omega arith)

  pub get_or-copy_into_above :
      (ds : List A) (i : ℕ) (ss : List A) (k : ℕ) (d : A)
      → i + length ss ≤ k
      → get_or (copy_into ds i ss) k d ≡ get_or ds k d
  get_or-copy_into_above [] i ss k d h = refl
  get_or-copy_into_above (x ∷ ds) zero [] k d h = refl
  get_or-copy_into_above (x ∷ ds) zero (s ∷ ss) zero d h = absurd (omega arith)
  get_or-copy_into_above (x ∷ ds) zero (s ∷ ss) (suc k) d h =
      get_or-copy_into_above ds zero ss k d (omega arith)
  get_or-copy_into_above (x ∷ ds) (suc i) ss zero d h = absurd (omega arith)
  get_or-copy_into_above (x ∷ ds) (suc i) ss (suc k) d h =
      get_or-copy_into_above ds i ss k d (omega arith)

  pub copy_into-append :
      (h rest ss : List A) (i : ℕ)
      → length h ≡ i
      → copy_into (h ++ rest) i ss ≡ h ++ copy_into rest 0 ss
  copy_into-append [] rest ss zero e = refl
  copy_into-append [] rest ss (suc i) e = absurd (omega arith)
  copy_into-append (x ∷ h) rest ss zero e = absurd (omega arith)
  copy_into-append (x ∷ h) rest ss (suc i) e =
      ap (◌∷◌ x) (copy_into-append h rest ss i (omega arith))

  -- A first part that stands, and a second part copied behind it.
  pub take-copy_into :
      (h rest ss : List A) (i n : ℕ)
      → length h ≡ i
      → length ss ≡ n
      → n ≤ length rest
      → take (i + n) (copy_into (h ++ rest) i ss) ≡ h ++ ss
  take-copy_into h rest ss i n hi hn fits =
      ap (take (i + n)) (
        copy_into-append h rest ss i hi
        ∙ ap (◌++◌ h) (copy_into_zero rest ss (omega arith))
        ∙ sym (append_assoc h ss (drop (length ss) rest)))
      ∙ take-append (h ++ ss) (drop (length ss) rest) (i + n) (omega (arith, length-append h ss))
