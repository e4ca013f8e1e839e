-- ===== src/Prelude/Bits.antt =====
-- The bit operations of the wire format: masks of seven and three bits, and disjoint ors.
use Prim.Native.Nat.{
  ℕ, zero, suc, ◌+◌, ◌*◌, ◌/◌, ◌%◌, ◌^◌, ◌≤◌, ◌<◌, max, bit_or, digits, bit_or-bitwise,
}
use mathlib.Core.Path.{◌≡◌, refl, ap}
use native.Mathlib.Nat.{pow-suc, one-le-pow}
use native.Mathlib.Omega.{arith}

-- The digit recursion that the native operation stands for.
abbrev or_digits : ℕ → ℕ → ℕ → ℕ
or_digits n a b = digits (λ b. b) max n a b

or_digits_fuel : (n m a b : ℕ) → a ≤ n → a ≤ m → or_digits n a b ≡ or_digits m a b
or_digits_fuel zero zero a b p q = refl
or_digits_fuel zero (suc m) zero b p q = refl
or_digits_fuel zero (suc m) (suc a) b p q = absurd (omega arith)
or_digits_fuel (suc n) zero zero b p q = refl
or_digits_fuel (suc n) zero (suc a) b p q = absurd (omega arith)
or_digits_fuel (suc n) (suc m) zero b p q = refl
or_digits_fuel (suc n) (suc m) (suc a) b p q =
    omega (arith, or_digits_fuel n m (suc a / 2) (b / 2) (omega arith) (omega arith))

pub zero-bit_or : (b : ℕ) → bit_or 0 b ≡ b
zero-bit_or b = bit_or-bitwise 0 b

-- An or is computed from the lowest bits and the halves.
pub bit_or_step : (a b : ℕ) → bit_or a b ≡ bit_or (a / 2) (b / 2) * 2 + max (a % 2) (b % 2)
bit_or_step zero b = omega (arith, zero-bit_or b, zero-bit_or (b / 2))
bit_or_step (suc a) b = omega (
  arith,
  bit_or-bitwise (suc a) b,
  bit_or-bitwise (suc a / 2) (b / 2),
  or_digits_fuel a (suc a / 2) (suc a / 2) (b / 2) (omega arith) (omega arith),
)

mod_double : (x p : ℕ) → 0 < p → x % (p * 2) ≡ x / 2 % p * 2 + x % 2
mod_double x p h = grind arith

half_shift : (g s : ℕ) → (g * 2 ^ suc s / 2 ≡ g * 2 ^ s) × (g * 2 ^ suc s % 2 ≡ 0)
half_shift g s = rw (pow-suc 2 s) (grind arith)

pub one-le-two_pow : (k : ℕ) → 0 < 2 ^ k
one-le-two_pow k = one-le-pow k 2 (omega arith)

mod_one : (x : ℕ) → x % 2 ^ 0 ≡ 0
mod_one x = omega arith

pub mod_zero : (k : ℕ) → 0 % 2 ^ k ≡ 0
mod_zero k = grind (arith, one-le-two_pow k)

half_lt : (s a : ℕ) → a < 2 ^ suc s → a / 2 < 2 ^ s
half_lt s a h = omega (arith, pow-suc 2 s)

half_sum : (s a g : ℕ) → (a + g * 2 ^ suc s) / 2 ≡ a / 2 + g * 2 ^ s
half_sum s a g = omega (arith, half_shift g s)

-- Half of a number cut to `w + 1` bits, and its lowest bit.
halves : (w x : ℕ) → (x % 2 ^ suc w / 2 ≡ x / 2 % 2 ^ w) × (x % 2 ^ suc w % 2 ≡ x % 2)
halves w x = rw (pow-suc 2 w) (omega (arith, mod_double x (2 ^ w) (one-le-two_pow w)))

-- Or-ing the group `g`, shifted by `s` and cut to `w` bits, into the cut of a number below `2 ^ s`
-- adds it, cut to `w` bits.
pub bit_or_group :
    (w s a g : ℕ) → a < 2 ^ s → bit_or (a % 2 ^ w) (g * 2 ^ s % 2 ^ w) ≡ (a + g * 2 ^ s) % 2 ^ w
bit_or_group zero s a g h =
    rw (mod_one a, mod_one (g * 2 ^ s), mod_one (a + g * 2 ^ s)) (zero-bit_or 0)
bit_or_group (suc w) zero a g h =
    let a0 : a ≡ 0 = omega arith in
    rw (a0, mod_zero (suc w), zero-bit_or) (ap (λ (t : ℕ). t % 2 ^ suc w) (omega arith))
bit_or_group (suc w) (suc s) a g h = omega (
  arith,
  bit_or_step (a % 2 ^ suc w) (g * 2 ^ suc s % 2 ^ suc w),
  halves w a,
  halves w (g * 2 ^ suc s),
  halves w (a + g * 2 ^ suc s),
  half_shift g s,
  ap (λ (t : ℕ). t % 2 ^ w) (half_sum s a g),
  ap (λ (t : ℕ). bit_or t (g * 2 ^ suc s % 2 ^ suc w / 2)) (halves w a).0,
  ap (λ (t : ℕ). bit_or (a / 2 % 2 ^ w) t) (halves w (g * 2 ^ suc s)).0,
  ap (λ (t : ℕ). bit_or (a / 2 % 2 ^ w) (t % 2 ^ w)) (half_shift g s).0,
  bit_or_group w s (a / 2) g (half_lt s a h),
)

pub bit_or-lt : (k a b : ℕ) → a < 2 ^ k → b < 2 ^ k → bit_or a b < 2 ^ k
bit_or-lt zero a b ha hb = ground (arith, zero-bit_or 0)
bit_or-lt (suc k) a b ha hb =
    let p = pow-suc 2 k in
    omega (arith, bit_or_step a b, bit_or-lt k (a / 2) (b / 2) (omega arith) (omega arith))

-- Setting the top bit of a group of seven bits.
pub bit_or_top : (g : ℕ) → g < 128 → bit_or g 0x80 ≡ g + 128
bit_or_top g h =
    let sum : bit_or (g % 256) 128 ≡ (g + 128) % 256 = bit_or_group 8 7 g 1 h in
    let same : g % 256 ≡ g = omega arith in omega (arith, sum, ap (λ (t : ℕ). bit_or t 128) same)

bit_or-zero_fuel : (n a : ℕ) → a ≤ n → bit_or a 0 ≡ a
bit_or-zero_fuel n zero h = zero-bit_or 0
bit_or-zero_fuel zero (suc a) h = absurd (omega arith)
bit_or-zero_fuel (suc n) (suc a) h =
    omega (arith, bit_or_step (suc a) 0, bit_or-zero_fuel n (suc a / 2) (omega arith))

-- Setting the lowest bit.
pub bit_or_one : (a : ℕ) → bit_or a 1 ≡ a / 2 * 2 + 1
bit_or_one a = omega (arith, bit_or_step a 1, bit_or-zero_fuel (a / 2) (a / 2) (omega arith))
