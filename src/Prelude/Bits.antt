-- ===== src/Prelude/Bits.antt =====
-- Single bits of a flag word, read by the native `bit_and`, and their arithmetic meaning.
use Prim.Native.Nat.{
  ℕ, zero, suc, ◌+◌, ◌*◌, ◌/◌, ◌%◌, ◌≤◌, ◌<◌, min, bit_and, digits, bit_and-bitwise,
}
use mathlib.Core.Path.{◌≡◌, refl, ◌∙◌}
use mathlib.Core.Bool.{Bool}
use native.Mathlib.Omega.{arith}
use wiretone.Prelude.Tests.{◌!=◌}

-- `(flags & flag) != 0U`
abbrev pub has_flag : ℕ → ℕ → Bool
has_flag flags flag = bit_and flags flag != 0

-- The recursion behind `bit_and` gives the same for any fuel that covers its first argument.
digits_min : ℕ → ℕ → ℕ → ℕ
digits_min fuel a b = digits (λ _. zero) min fuel a b

digits_min-fuel : (m n a b : ℕ) → a ≤ m → a ≤ n → digits_min m a b ≡ digits_min n a b
unfolding digits_min
digits_min-fuel zero zero a b p q = refl
digits_min-fuel (suc m) zero zero b p q = refl
digits_min-fuel zero (suc n) zero b p q = refl
digits_min-fuel (suc m) (suc n) zero b p q = refl
digits_min-fuel zero n (suc a) b p q = absurd (omega arith)
digits_min-fuel (suc m) zero (suc a) b p q = absurd (omega arith)
digits_min-fuel (suc m) (suc n) (suc a) b p q =
    omega (arith, digits_min-fuel m n (suc a / 2) (b / 2) (omega arith) (omega arith))

-- The lowest digit of a conjunction, and the rest of it.
pub bit_and-halves : (a b : ℕ) → bit_and a b ≡ 2 * bit_and (a / 2) (b / 2) + min (a % 2) (b % 2)
unfolding digits_min
bit_and-halves zero b = omega (arith, bit_and-bitwise 0 b, bit_and-bitwise 0 (b / 2))
bit_and-halves (suc a) b = omega (
  arith,
  bit_and-bitwise (suc a) b,
  bit_and-bitwise (suc a / 2) (b / 2),
  digits_min-fuel a (suc a / 2) (suc a / 2) (b / 2) (omega arith) (omega arith),
)

bit_and-zero_le : (n a : ℕ) → a ≤ n → bit_and a 0 ≡ 0
bit_and-zero_le n zero h = refl
bit_and-zero_le zero (suc a) h = absurd (omega arith)
bit_and-zero_le (suc n) (suc a) h =
    omega (arith, bit_and-halves (suc a) 0, bit_and-zero_le n (suc a / 2) (omega arith))

pub bit_and-zero : (a : ℕ) → bit_and a 0 ≡ 0
bit_and-zero a = bit_and-zero_le a a (omega arith)

-- The two flags of an audio packet.
pub bit_and_one : (a : ℕ) → bit_and a 1 ≡ a % 2
bit_and_one a = omega (arith, bit_and-halves a 1, bit_and-zero (a / 2))

pub bit_and_two : (a : ℕ) → bit_and a 2 ≡ 2 * (a / 2 % 2)
bit_and_two a = omega (arith, bit_and-halves a 2, bit_and_one (a / 2))

-- The mask of that many ones, and the first number that it does not cover.
ones : ℕ → ℕ
ones zero = 0
ones (suc k) = 2 * ones k + 1

past : ℕ → ℕ
past zero = 1
past (suc k) = 2 * past k

-- A mask of ones keeps a number that it covers.
bit_and-ones : (k a : ℕ) → a < past k → bit_and a (ones k) ≡ a
unfolding ones past
bit_and-ones zero zero h = refl
bit_and-ones zero (suc a) h = absurd (omega arith)
bit_and-ones (suc k) a h =
    let half : (2 * ones k + 1) / 2 ≡ ones k = omega arith in
    let odd : (2 * ones k + 1) % 2 ≡ 1 = omega arith in
    let rest : bit_and (a / 2) (ones k) ≡ a / 2 = bit_and-ones k (a / 2) (omega arith) in
    bit_and-halves a (2 * ones k + 1) ∙ rw (half, odd, rest) (omega arith)

fourteen_ones : (a : ℕ) → a < 0x4000 → bit_and a 0x3fff ≡ a
unfolding ones past
fourteen_ones a h = bit_and-ones 14 a h

-- The bits above the two known flags of a 16-bit word.
pub bit_and_unknown : (a : ℕ) → a < 0x1_0000 → bit_and a 0xfffc ≡ 4 * (a / 4)
bit_and_unknown a h = omega (
  arith,
  bit_and-halves a 0xfffc,
  bit_and-halves (a / 2) 0x7ffe,
  fourteen_ones (a / 2 / 2) (omega arith),
)

-- The bits above the lowest one, and above the lowest three, of a 32-bit word.
thirty_one_ones : (a : ℕ) → a < 0x8000_0000 → bit_and a 0x7fff_ffff ≡ a
unfolding ones past
thirty_one_ones a h = bit_and-ones 31 a h

pub bit_and_above_one : (a : ℕ) → a < 0x1_0000_0000 → bit_and a 0xffff_fffe ≡ 2 * (a / 2)
bit_and_above_one a h =
    omega (arith, bit_and-halves a 0xffff_fffe, thirty_one_ones (a / 2) (omega arith))

twenty_nine_ones : (a : ℕ) → a < 0x2000_0000 → bit_and a 0x1fff_ffff ≡ a
unfolding ones past
twenty_nine_ones a h = bit_and-ones 29 a h

pub bit_and_above_three : (a : ℕ) → a < 0x1_0000_0000 → bit_and a 0xffff_fff8 ≡ 8 * (a / 8)
bit_and_above_three a h = omega (
  arith,
  bit_and-halves a 0xffff_fff8,
  bit_and-halves (a / 2) 0x7fff_fffc,
  bit_and-halves (a / 2 / 2) 0x3fff_fffe,
  twenty_nine_ones (a / 2 / 2 / 2) (omega arith),
)
