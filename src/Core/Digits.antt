-- ===== src/Core/Digits.antt =====
-- contracts/core/IBCHost.sol: `uint2str` against the decimal digits of a number.
use native.Mathlib.Nat.{pow-suc}
use yui_ibc_solidity.Prelude.{
  ℕ, zero, suc, ◌+◌, ◌-◌, ◌*◌, ◌/◌, ◌%◌, ◌^◌, ◌<◌, ◌≤◌, ◌≡◌, refl, sym, ap, ◌∙◌, inl, inr, arith,
  Bytes, [], ◌∷◌, ◌++◌, append_assoc, append-nil, length, length-append, replicate, Bool, true,
  false, if◌then◌else◌, ◌==◌, ltb, Bool-cases, ltb→lt,
}
use yui_ibc_solidity.Prelude.Decimal.{digits, decimal}
use yui_ibc_solidity.Prelude.Try.{ok, ◌>>=◌}
use yui_ibc_solidity.Core.Host.{count_digits, set_byte, write_digits, uint2str}

-- The byte of a digit.
digit_byte : (i : ℕ) → (48 + (i - i / 10 * 10) % 256) % 256 ≡ 48 + i % 10
digit_byte i = omega arith

positive : (i : ℕ) → 0 < i → (i == 0) ≡ false
positive i h = ground arith

if-true : {A : Type 0} (b : Bool) (x y : A) → b ≡ true → (if b then x else y) ≡ x
if-true true x y h = refl
if-true false x y h = cc

if-false : {A : Type 0} (b : Bool) (x y : A) → b ≡ false → (if b then x else y) ≡ y
if-false true x y h = cc
if-false false x y h = refl

-- The clause of `digits` for one more digit, on a number below ten and on another.
digits-last : (k i : ℕ) → ltb i 10 ≡ true → digits (suc k) i ≡ (48 + i % 10) ∷ []
unfolding digits
digits-last k i h =
    let small = ltb→lt i 10 h in if-true (ltb i 10) _ _ h ∙ ap (λ d. (48 + d) ∷ []) (omega arith)

digits-more :
    (k i : ℕ) → ltb i 10 ≡ false → digits (suc k) i ≡ digits k (i / 10) ++ ((48 + i % 10) ∷ [])
unfolding digits
digits-more k i h = if-false (ltb i 10) _ _ h

not_small : (i : ℕ) → ltb i 10 ≡ false → 10 ≤ i
not_small i h = ground arith

digits-length : (k i : ℕ) → length (digits k i) ≤ suc k
unfolding digits
digits-length zero i = omega arith
digits-length (suc k) i = elim (Bool-cases (ltb i 10)) [
  | inl one ↦ let last = ap (λ (l : Bytes). length l) (digits-last k i one) in omega (arith, last)
  | inr more ↦
      let split = ap (λ (l : Bytes). length l) (digits-more k i more) in
      omega (
        arith,
        split,
        length-append (digits k (i / 10)) ((48 + i % 10) ∷ []),
        digits-length k (i / 10),
      )
]

count_digits-zero : (fuel len : ℕ) → count_digits fuel 0 len ≡ len
unfolding count_digits
count_digits-zero zero len = refl
count_digits-zero (suc fuel) len = refl

count_digits-suc :
    (fuel i len : ℕ)
    → 0 < i
    → len + 1 < 2 ^ 64
    → count_digits (suc fuel) i len ≡ count_digits fuel (i / 10) (len + 1)
unfolding count_digits
count_digits-suc fuel i len h small =
    if-false (i == 0) len _ (positive i h) ∙ ap (λ n. count_digits fuel (i / 10) n) (omega arith)

-- The first loop counts the digits.
count_digits-length :
    (k i len : ℕ)
    → 0 < i
    → i < 10 ^ suc k
    → len + suc k < 2 ^ 64
    → count_digits (suc k) i len ≡ len + length (digits k i)
unfolding digits
count_digits-length zero i len h small fits =
    let none_left : i / 10 ≡ 0 = omega arith in
    count_digits-suc 0 i len h (omega arith) ∙ count_one len
  where
    count_one : (len : ℕ) → count_digits 0 (i / 10) (len + 1) ≡ len + 1
    count_one len = unfold count_digits in refl
count_digits-length (suc k) i len h small fits = elim (Bool-cases (ltb i 10)) [
  | inl one ↦
      let small_one = ltb→lt i 10 one in
      let none_left : i / 10 ≡ 0 = omega arith in
      let last = ap (λ (l : Bytes). length l) (digits-last k i one) in
      count_digits-suc (suc k) i len h (omega arith)
      ∙ ap (λ n. count_digits (suc k) n (len + 1)) none_left
      ∙ count_digits-zero (suc k) (len + 1)
      ∙ omega (arith, last)
  | inr more ↦
      let large = not_small i more in
      let split = ap (λ (l : Bytes). length l) (digits-more k i more) in
      count_digits-suc (suc k) i len h (omega arith)
      ∙ count_digits-length k (i / 10) (len + 1) (omega arith) (omega (arith, pow-suc 10 (suc k)))
          (omega arith)
      ∙ omega (arith, split, length-append (digits k (i / 10)) ((48 + i % 10) ∷ []))
]

-- A byte behind the first `k` of a buffer.
set_byte-append :
    (k x b : ℕ) (w : Bytes)
    → set_byte (replicate k 0 ++ (x ∷ w)) k b ≡ ok (replicate k 0 ++ (b ∷ w))
unfolding set_byte
set_byte-append zero x b w = refl
set_byte-append (suc k) x b w = rw (set_byte-append k x b w) refl

replicate-last : (k : ℕ) (w : Bytes) → replicate (suc k) 0 ++ w ≡ replicate k 0 ++ (0 ∷ w)
replicate-last zero w = refl
replicate-last (suc k) w = ap (λ l. 0 ∷ l) (replicate-last k w)

write_digits-zero : (fuel k : ℕ) (bstr : Bytes) → write_digits fuel 0 k bstr ≡ ok bstr
unfolding write_digits
write_digits-zero zero k bstr = refl
write_digits-zero (suc fuel) k bstr = refl

-- A round writes the last digit at the end of what is still zero.
write_digits-suc :
    (fuel i k : ℕ) (w : Bytes)
    → 0 < i
    → suc k < 2 ^ 64
    → write_digits (suc fuel) i (suc k) (replicate (suc k) 0 ++ w)
      ≡ write_digits fuel (i / 10) k (replicate k 0 ++ ((48 + i % 10) ∷ w))
unfolding write_digits
write_digits-suc fuel i k w h fits =
    let before : (suc k + (2 ^ 64 - 1)) % 2 ^ 64 ≡ k = omega arith in
    let byte : ℕ = (48 + (i - i / 10 * 10) % 256) % 256 in
    if-false (i == 0) _ _ (positive i h)
    ∙ ap
        (λ n. set_byte (replicate (suc k) 0 ++ w) n byte >>= λ written.
          write_digits fuel (i / 10) n written)
        before
    ∙ ap (λ l. set_byte l k byte >>= λ written. write_digits fuel (i / 10) k written)
        (replicate-last k w)
    ∙ ap (λ r. r >>= λ written. write_digits fuel (i / 10) k written) (set_byte-append k 0 byte w)
    ∙ ap (λ d. write_digits fuel (i / 10) k (replicate k 0 ++ (d ∷ w))) (digit_byte i)

digits-one : (i : ℕ) → (length (digits 0 i) ≡ 1) × (digits 0 i ≡ (48 + i % 10) ∷ [])
unfolding digits
digits-one i = (refl, refl)

digits-positive : (k i : ℕ) → 0 < length (digits k i)
digits-positive zero i = let (one, _) = digits-one i in omega (arith, one)
digits-positive (suc k) i = elim (Bool-cases (ltb i 10)) [
  | inl one ↦ let last = ap (λ (l : Bytes). length l) (digits-last k i one) in omega (arith, last)
  | inr more ↦
      let split = ap (λ (l : Bytes). length l) (digits-more k i more) in
      omega (arith, split, length-append (digits k (i / 10)) ((48 + i % 10) ∷ []))
]

write_digits-none : (i k : ℕ) (bstr : Bytes) → write_digits 0 i k bstr ≡ ok bstr
unfolding write_digits
write_digits-none i k bstr = refl

-- The second loop fills as many bytes as there are digits, and is in range.
write_digits-digits :
    (k i len : ℕ) (w : Bytes)
    → 0 < i
    → i < 10 ^ suc k
    → length (digits k i) ≡ len
    → len < 2 ^ 64
    → write_digits (suc k) i len (replicate len 0 ++ w) ≡ ok (digits k i ++ w)
write_digits-digits k i zero w h small e fits = absurd (omega (arith, e, digits-positive k i))
write_digits-digits zero i (suc len) w h small e fits =
    let (one, last) = digits-one i in
    let none : len ≡ 0 = omega (arith, e, one) in
    write_digits-suc 0 i len w h fits
    ∙ ap (λ n. write_digits 0 (i / 10) n (replicate n 0 ++ ((48 + i % 10) ∷ w))) none
    ∙ write_digits-none (i / 10) 0 ((48 + i % 10) ∷ w)
    ∙ ap (λ l. ok (l ++ w)) (sym last)
write_digits-digits (suc k) i (suc len) w h small e fits = elim (Bool-cases (ltb i 10)) [
  | inl one ↦
      let small_one = ltb→lt i 10 one in
      let none_left : i / 10 ≡ 0 = omega arith in
      let last = digits-last k i one in
      let none : len ≡ 0 = omega (arith, e, ap (λ (l : Bytes). length l) last) in
      write_digits-suc (suc k) i len w h fits
      ∙ ap (λ n. write_digits (suc k) n len (replicate len 0 ++ ((48 + i % 10) ∷ w))) none_left
      ∙ write_digits-zero (suc k) len (replicate len 0 ++ ((48 + i % 10) ∷ w))
      ∙ ap (λ n. ok (replicate n 0 ++ ((48 + i % 10) ∷ w))) none
      ∙ ap (λ l. ok (l ++ w)) (sym last)
  | inr more ↦
      let large = not_small i more in
      let split = digits-more k i more in
      let all = length-append (digits k (i / 10)) ((48 + i % 10) ∷ []) in
      write_digits-suc (suc k) i len w h fits
      ∙ write_digits-digits k (i / 10) len ((48 + i % 10) ∷ w) (omega arith)
          (omega (arith, pow-suc 10 (suc k)))
          (omega (arith, e, all, ap (λ (l : Bytes). length l) split)) (omega arith)
      ∙ ap ok (sym (append_assoc (digits k (i / 10)) ((48 + i % 10) ∷ []) w))
      ∙ ap (λ l. ok (l ++ w)) (sym split)
]

-- uint2str of a uint64 does not fail, and returns its decimal digits, as %v of Go prints them: the buffer has as many bytes
-- as there are digits, and each is written once, in range.
pub uint2str-decimal : (i : ℕ) → i < 2 ^ 64 → uint2str i ≡ ok (decimal i)
unfolding uint2str decimal
uint2str-decimal zero h = refl
uint2str-decimal (suc i) h =
    let len = length (digits 19 (suc i)) in
    let counted : count_digits 20 (suc i) 0 ≡ len =
      count_digits-length 19 (suc i) 0 (omega arith) (omega arith) (omega arith) ∙ omega arith in
    if-false (suc i == 0) _ _ (positive (suc i) (omega arith))
    ∙ ap (λ n. write_digits 20 (suc i) n (replicate n 0)) counted
    ∙ ap (λ l. write_digits 20 (suc i) len l) (sym (append-nil (replicate len 0)))
    ∙ write_digits-digits 19 (suc i) len [] (omega arith) (omega arith) refl
        (omega (arith, digits-length 19 (suc i)))
    ∙ ap ok (append-nil (digits 19 (suc i)))
