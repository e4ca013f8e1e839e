-- ===== src/Wire/Sov.antt =====
-- `sov…` counts the bytes of a varint, and the loop of `encodeVarint…` stores them in their place.
use yui_ibc_solidity.Prelude.{
  ℕ, zero, suc, ◌+◌, ◌/◌, ◌%◌, ◌^◌, ◌≤◌, ◌<◌, ◌≡◌, refl, ap, arith, Bytes, ◌++◌, some, ltb, length,
  replicate, bit_or, inl, inr, Bool-cases,
}
use yui_ibc_solidity.Prelude.Bits.{bit_or_top, bit_or_one}
use yui_ibc_solidity.Wire.Writer.{bit_length, sov, store_varint}
use native.Mathlib.Nat.{pow-suc}
use yui_ibc_solidity.Wire.Format.{IsU64, groups, varint}

-- Any fuel that covers the number gives its length.
bit_length_fuel : (f g x : ℕ) → x < 2 ^ f → x < 2 ^ g → bit_length f x ≡ bit_length g x
unfolding bit_length
bit_length_fuel zero zero x p q = refl
bit_length_fuel zero (suc g) x p q = ground arith
bit_length_fuel (suc f) zero x p q = ground arith
bit_length_fuel (suc f) (suc g) x p q =
    ground (arith, pow-suc 2 f, pow-suc 2 g, bit_length_fuel f g (x / 2))

bit_length_step : (x : ℕ) → 0 < x → IsU64 x → bit_length 64 x ≡ suc (bit_length 64 (x / 2))
bit_length_step x p q = unfold bit_length in ground (arith, bit_length_fuel 63 64 (x / 2))

bit_length_seven : (x : ℕ) → 128 ≤ x → IsU64 x → bit_length 64 x ≡ 7 + bit_length 64 (x / 128)
bit_length_seven x p q = omega (
  arith,
  bit_length_step x,
  bit_length_step (x / 2),
  bit_length_step (x / 2 / 2),
  bit_length_step (x / 2 / 2 / 2),
  bit_length_step (x / 2 / 2 / 2 / 2),
  bit_length_step (x / 2 / 2 / 2 / 2 / 2),
  bit_length_step (x / 2 / 2 / 2 / 2 / 2 / 2),
  ap (bit_length 64) sevenths,
)
  where
    sevenths : x / 2 / 2 / 2 / 2 / 2 / 2 / 2 ≡ x / 128
    sevenths = omega arith

bit_length-le : (f k x : ℕ) → x < 2 ^ k → bit_length f x ≤ k
unfolding bit_length
bit_length-le zero k x h = omega arith
bit_length-le (suc f) zero x h = ground arith
bit_length-le (suc f) (suc k) x h = ground (arith, pow-suc 2 k, bit_length-le f k (x / 2))

sov_small : (v : ℕ) → v < 128 → sov v ≡ 1
unfolding sov
sov_small v h = omega (
  arith,
  bit_or_one v,
  bit_length-le 64 7 (bit_or v 1) (omega (arith, bit_or_one v)),
  bit_length_step (bit_or v 1),
)

sov_step : (v : ℕ) → 128 ≤ v → IsU64 v → sov v ≡ suc (sov (v / 128))
unfolding sov
sov_step v p q = omega (
  arith,
  bit_or_one v,
  bit_or_one (v / 128),
  bit_length_seven (bit_or v 1),
  bit_length_step (bit_or (v / 128) 1),
  bit_length_step (v / 128),
  ap (bit_length 64) group,
  ap (bit_length 64) half,
)
  where
    group : bit_or v 1 / 128 ≡ v / 128
    group = omega (arith, bit_or_one v)

    half : bit_or (v / 128) 1 / 2 ≡ v / 128 / 2
    half = omega (arith, bit_or_one (v / 128))

-- `sov` counts the bytes of a varint.
sov-groups : (k v : ℕ) → v < 128 ^ suc k → IsU64 v → sov v ≡ length (groups k v)
unfolding groups
sov-groups zero v h q = sov_small v (omega arith)
sov-groups (suc k) v h q = ground (arith, sov_small v, sov_step v, sov-groups k (v / 128))

-- `sov…` gives the number of bytes of a uint64's varint.
pub sov-varint : (v : ℕ) → IsU64 v → sov v ≡ length (varint v)
unfolding varint
sov-varint v h = sov-groups 9 v (omega arith) h

store_varint-groups :
    (k v : ℕ) (t : Bytes)
    → v < 128 ^ suc k
    → store_varint (replicate (length (groups k v)) 0 ++ t) v ≡ some (groups k v ++ t)
unfolding groups store_varint
store_varint-groups zero v t h = ground arith
store_varint-groups (suc k) v t h = elim (Bool-cases (ltb v 128)) [
  | inl small ↦ rw small (ground arith)
  | inr big ↦ rw big (ground (arith, bit_or_top (v % 128), store_varint-groups k (v / 128) t))
]

pub store_varint-varint :
    (v : ℕ) (t : Bytes)
    → IsU64 v
    → store_varint (replicate (length (varint v)) 0 ++ t) v ≡ some (varint v ++ t)
unfolding varint
store_varint-varint v t h = store_varint-groups 9 v t (omega arith)
