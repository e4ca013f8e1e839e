-- ===== src/Client/RevertReason.antt =====
-- pkg/client/besu.go: `parseRevertReason`. A Go slice is its bytes and the spare bytes behind them, up to its capacity.
use yui_ibc_solidity.Prelude.{
  ℕ, ◌+◌, ◌*◌, ◌%◌, ◌^◌, ◌≤◌, ◌<◌, ◌≡◌, refl, sym, ap, ◌∙◌, arith, Bytes, List, [], ◌∷◌, ◌++◌, ltb,
  leb, ◌==◌, if◌then◌else◌, length, take, drop, length-append, take-append, append_assoc,
  drop-append,
}

-- A string, the error for a length below 68, or a runtime panic.
pub data Parsed : Type 0 where
  parsed : Bytes → Parsed
  invalid_length panic : Parsed

-- `big.Int.SetBytes`, after the number `n`.
unfoldable pub set_bytes : ℕ → Bytes → ℕ
set_bytes n [] = n
set_bytes n (b ∷ bs) = set_bytes (n * 256 + b) bs

-- `bz[68:68+size]` for an int64 `size`, of which `n` holds the 64 bits.
unfoldable pub slice_string : Bytes → Bytes → ℕ → Parsed
slice_string bz spare n =
    let high = (68 + n) % 2 ^ 64 in
    if leb (2 ^ 63) high
    then panic
    else if ltb high 68
    then panic
    else if ltb (length bz + length spare) high
    then panic
    else parsed (take n (drop 68 (bz ++ spare)))

unfoldable pub parse_revert_reason : Bytes → Bytes → Parsed
unfolding set_bytes slice_string
parse_revert_reason bz spare =
    if length bz == 0
    then parsed []
    else if ltb (length bz) 68
    then invalid_length
    else slice_string bz spare (set_bytes 0 (take 32 (drop 36 bz)) % 2 ^ 64)

-- A revert reason as the ABI encodes it: selector, offset, size, the string and its padding.
abbrev pub revert_reason : Bytes → Bytes → Bytes → Bytes → Bytes → Bytes
revert_reason selector offset size reason padding =
    selector ++ (offset ++ (size ++ (reason ++ padding)))

take-drop_middle :
    {A : Type 0} (xs ys zs : List A) → take (length ys) (drop (length xs) (xs ++ (ys ++ zs))) ≡ ys
take-drop_middle xs ys zs = rw (drop-append xs (ys ++ zs)) (take-append ys zs)

regroup :
    {A : Type 0} (a b c d e f : List A)
    → (a ++ (b ++ (c ++ (d ++ e)))) ++ f ≡ ((a ++ b) ++ c) ++ (d ++ (e ++ f))
regroup a b c d e f = simp append_assoc refl

low_bits : (n : ℕ) → n < 2 ^ 62 → n % 2 ^ 64 ≡ n
low_bits n h = omega arith

take-drop_at :
    {A : Type 0} (n i : ℕ) (xs ys zs : List A)
    → length xs ≡ i
    → length ys ≡ n
    → take n (drop i (xs ++ (ys ++ zs))) ≡ ys
take-drop_at n i xs ys zs h1 h2 =
    ap (λ k. take k (drop i (xs ++ (ys ++ zs)))) (sym h2)
    ∙ ap (λ k. take (length ys) (drop k (xs ++ (ys ++ zs)))) (sym h1)
    ∙ take-drop_middle xs ys zs

long_enough :
    (bz : Bytes) (r : Parsed)
    → 68 ≤ length bz
    → (if length bz == 0 then parsed [] else if ltb (length bz) 68 then invalid_length else r) ≡ r
long_enough bz r h = ground arith

slice_in_reach :
    (bz spare : Bytes) (n : ℕ)
    → n < 2 ^ 62
    → 68 + n ≤ length bz
    → slice_string bz spare n ≡ parsed (take n (drop 68 (bz ++ spare)))
unfolding slice_string
slice_in_reach bz spare n h1 h2 = ground arith

module _ (selector offset size reason padding : Bytes) (h1 : length selector ≡ 4)
    (h2 : length offset ≡ 32) (h3 : length size ≡ 32) where
  length-revert_reason :
      length (revert_reason selector offset size reason padding)
      ≡ 68 + length reason + length padding
  length-revert_reason =
      rw
        (
          length-append selector (offset ++ (size ++ (reason ++ padding))),
          length-append offset (size ++ (reason ++ padding)),
          length-append size (reason ++ padding),
          length-append reason padding,
        )
        (omega arith)

  size_word : take 32 (drop 36 (revert_reason selector offset size reason padding)) ≡ size
  size_word =
      let front = length-append selector offset in
      ap (λ l. take 32 (drop 36 l)) (sym (append_assoc selector offset _))
      ∙ take-drop_at 32 36 (selector ++ offset) size (reason ++ padding) (omega arith) h3

  string_bytes :
      (spare : Bytes)
      → take (length reason) (drop 68 (revert_reason selector offset size reason padding ++ spare))
        ≡ reason
  string_bytes spare =
      let front = length-append selector offset in
      let whole = length-append (selector ++ offset) size in
      ap (λ l. take (length reason) (drop 68 l)) (regroup selector offset size reason padding spare)
      ∙ take-drop_at (length reason) 68 ((selector ++ offset) ++ size) reason (padding ++ spare)
          (omega arith) refl

-- The string of a revert reason is parsed whole, for any 4-byte selector, 32-byte offset and padding,
-- where the 32-byte size word is the string's length, below 2 ^ 62.
pub parse_revert_reason-revert_reason :
    (selector offset size reason padding spare : Bytes)
    → length selector ≡ 4
    → length offset ≡ 32
    → length size ≡ 32
    → set_bytes 0 size ≡ length reason
    → length reason < 2 ^ 62
    → parse_revert_reason (revert_reason selector offset size reason padding) spare ≡ parsed reason
unfolding parse_revert_reason slice_string
parse_revert_reason-revert_reason selector offset size reason padding spare h1 h2 h3 h4 h5 =
    let size_lem = size_word selector offset size reason padding h1 h2 h3 in
    let total = length-revert_reason selector offset size reason padding h1 h2 h3 in
    let bz = revert_reason selector offset size reason padding in
    rw (size_lem, h4)
      (long_enough bz (slice_string bz spare (length reason % 2 ^ 64)) (omega arith)
        ∙ ap (slice_string bz spare) (low_bits (length reason) h5)
        ∙ slice_in_reach bz spare (length reason) (omega arith) (omega arith)
        ∙ ap parsed (string_bytes selector offset size reason padding h1 h2 h3 spare))

slice_out_of_reach :
    (bz spare : Bytes) (n : ℕ)
    → n < 2 ^ 64
    → length bz + length spare < 68 + n
    → slice_string bz spare n ≡ panic
unfolding slice_string
slice_out_of_reach bz spare n fits h = ground arith

-- A revert reason of 68 bytes or more whose size word, modulo 2^64, reaches past the capacity of the slice makes the parser
-- panic.
pub parse_revert_reason-panic :
    (bz spare : Bytes)
    → 68 ≤ length bz
    → length bz + length spare < 68 + set_bytes 0 (take 32 (drop 36 bz)) % 2 ^ 64
    → parse_revert_reason bz spare ≡ panic
unfolding parse_revert_reason
parse_revert_reason-panic bz spare h1 h2 =
    long_enough bz (slice_string bz spare (set_bytes 0 (take 32 (drop 36 bz)) % 2 ^ 64)) h1
    ∙ slice_out_of_reach bz spare (set_bytes 0 (take 32 (drop 36 bz)) % 2 ^ 64) (omega arith) h2
