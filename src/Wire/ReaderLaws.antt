-- ===== src/Wire/ReaderLaws.antt =====
-- The readers undo the format: a varint, a length-delimited block and a field are read back, with
-- whatever follows them left in place.
use yui_ibc_solidity.Prelude.{
  ℕ, zero, suc, ◌+◌, ◌-◌, ◌*◌, ◌/◌, ◌%◌, ◌^◌, ◌≤◌, ◌<◌, ◌≡◌, sym, ap, ◌∙◌, arith, Bytes, ◌∷◌, ◌++◌,
  ltb, length, length-append, take-append, drop-append, inl, inr, Bool-cases, lt→ltb, le→ltb,
}
use native.Mathlib.Nat.{mod-eq_of_lt, div-add-mod}
use native.Mathlib.Numerals.{towards_suc}
use yui_ibc_solidity.Prelude.Bits.{bit_or_group, one-le-two_pow, mod_zero, zero-bit_or}
use yui_ibc_solidity.Wire.Result.{ok}
use yui_ibc_solidity.Wire.Reader.{read_varint, int_lt, slice, read_slice, read_bytes}
use yui_ibc_solidity.Wire.Format.{IsU64, IsLength, groups, varint}

pow_seven : (s : ℕ) → 2 ^ (s + 7) ≡ 128 * 2 ^ s
pow_seven s = simp towards_suc (omega arith)

-- One round of the varint loop: on a last byte, and on a byte with the top bit set.
read_last :
    (w s a v : ℕ) (rest : Bytes)
    → v < 128
    → s < 64
    → a < 2 ^ s
    → read_varint w (v ∷ rest) (a % 2 ^ w) s ≡ ok ((a + v * 2 ^ s) % 2 ^ w, rest)
unfolding read_varint
read_last w s a v rest hv hs ha =
    let low : v % 128 ≡ v = omega arith in
    rw (low, bit_or_group w s a v ha, lt→ltb v 128 hv) (ground arith)

read_more :
    (w s a g : ℕ) (rest : Bytes)
    → g < 128
    → s < 64
    → a < 2 ^ s
    → read_varint w ((g + 128) ∷ rest) (a % 2 ^ w) s
      ≡ read_varint w rest ((a + g * 2 ^ s) % 2 ^ w) (s + 7)
unfolding read_varint
read_more w s a g rest hg hs ha =
    let low : (g + 128) % 128 ≡ g = omega arith in
    rw (low, bit_or_group w s a g ha, le→ltb (g + 128) 128 (omega arith)) (ground arith)

below : (s a g : ℕ) → g < 128 → a < 2 ^ s → a + g * 2 ^ s < 2 ^ (s + 7)
below s a g hg ha = rw (pow_seven s) (grind (arith, one-le-two_pow s))

regroup : (s a v : ℕ) → a + v % 128 * 2 ^ s + v / 128 * 2 ^ (s + 7) ≡ a + v * 2 ^ s
regroup s a v = omega (
  arith,
  ap (λ (t : ℕ). t * 2 ^ s) (div-add-mod v 128),
  ap (λ (t : ℕ). v / 128 * t) (pow_seven s),
)

-- `v` is what is still to be read, and counts from bit `s` on.
read_varint-groups :
    (k w s a v : ℕ) (rest : Bytes)
    → v < 128 ^ suc k
    → s + 7 * k < 64
    → a < 2 ^ s
    → read_varint w (groups k v ++ rest) (a % 2 ^ w) s ≡ ok ((a + v * 2 ^ s) % 2 ^ w, rest)
unfolding groups
read_varint-groups zero w s a v rest hv hs ha =
    read_last w s a v rest (omega arith) (omega arith) ha
read_varint-groups (suc k) w s a v rest hv hs ha = elim (Bool-cases (ltb v 128)) [
  | inl small ↦ rw small (read_last w s a v rest (ground arith) (omega arith) ha)
  | inr big ↦
      rw
        (big, read_more w s a (v % 128) (groups k (v / 128) ++ rest) (omega arith) (omega arith) ha)
        (read_varint-groups k w (s + 7) (a + v % 128 * 2 ^ s) (v / 128) rest (omega arith)
            (omega arith) (below s a (v % 128) (omega arith) ha)
          ∙ ap (λ (t : ℕ). ok (t % 2 ^ w, rest)) (regroup s a v))
]

-- The varint of a uint64 is read back, cut to the width that it is read at, and what follows it is left.
pub read_varint-varint :
    (w v : ℕ) (rest : Bytes) → IsU64 v → read_varint w (varint v ++ rest) 0 0 ≡ ok (v % 2 ^ w, rest)
unfolding varint
read_varint-varint w v rest h =
    let all : read_varint w (varint v ++ rest) (0 % 2 ^ w) 0 ≡ ok ((0 + v * 2 ^ 0) % 2 ^ w, rest) =
      read_varint-groups 9 w 0 0 v rest (omega arith) (omega arith) (omega arith) in
    let same : 0 + v * 2 ^ 0 ≡ v = omega arith in
    ap (λ (t : ℕ). read_varint w (varint v ++ rest) t 0) (sym (mod_zero w))
    ∙ all
    ∙ ap (λ (t : ℕ). ok (t % 2 ^ w, rest)) same

pub read_u64 :
    (v : ℕ) (rest : Bytes) → IsU64 v → read_varint 64 (varint v ++ rest) 0 0 ≡ ok (v, rest)
read_u64 v rest h = read_varint-varint 64 v rest h ∙ ap (λ (t : ℕ). ok (t, rest)) (mod-eq_of_lt h)

-- A block of the bytes that are there is cut off.
pub read_slice-append :
    (l : ℕ) (s rest : Bytes)
    → length (s ++ rest) ≤ l
    → IsLength l
    → read_slice l (length s) (s ++ rest) ≡ ok (s, rest)
unfolding read_slice slice int_lt
read_slice-append l s rest h hl =
    let index = l - length (s ++ rest) in
    let post : (index + length s) % 2 ^ 64 ≡ index + length s =
      omega (arith, length-append s rest) in
    let size : index + length s - index ≡ length s = omega arith in
    rw (post, size, take-append s rest, drop-append s rest) (ground (arith, length-append s rest))

pub read_bytes-chunk :
    (l : ℕ) (s rest : Bytes)
    → length (s ++ rest) ≤ l
    → IsLength l
    → read_bytes l (varint (length s) ++ (s ++ rest)) ≡ ok (s, rest)
unfolding read_bytes
read_bytes-chunk l s rest h hl =
    rw (read_u64 (length s) (s ++ rest) (omega (arith, length-append s rest)))
      (read_slice-append l s rest h hl)

-- A tag below 128 is a single byte.
pub read_tag :
    (tag : ℕ) (rest : Bytes) → tag < 128 → read_varint 64 (tag ∷ rest) 0 0 ≡ ok (tag, rest)
unfolding read_varint
read_tag tag rest h =
    let low : tag % 128 * 2 ^ 0 % 2 ^ 64 ≡ tag = omega arith in
    rw (low, zero-bit_or tag, lt→ltb tag 128 h)
