-- ===== src/Prelude/Decimal.antt =====
-- Decimal numbers, as `fmt` prints an unsigned integer with %v and `strconv.Atoi` reads an int of 64
-- bits.
use Prim.Native.Nat.{ℕ, zero, suc, ◌+◌, ◌-◌, ◌*◌, ◌/◌, ◌%◌, ◌^◌, ◌≤◌, ◌<◌}
use mathlib.Core.Path.{◌≡◌, refl, ◌∙◌}
use mathlib.Core.Logic.{inl, inr, ◌≢◌}
use mathlib.Core.Bool.{Bool, true, false, ◌||◌}
use mathlib.Core.List.{[], ◌∷◌, ◌++◌, cons-ne-nil, concat-ne-nil}
use native.Mathlib.Nat.{pow-suc}
use native.Mathlib.Omega.{arith}
use yui_ibc_solidity.Prelude.Tests.{Bytes, ltb, leb, ◌==◌, if◌then◌else◌, Bool-cases}
use yui_ibc_solidity.Prelude.Lists.{All}
use yui_ibc_solidity.Prelude.Try.{Try, ok, err, ◌>>=◌}

-- The digits of a number below 10 ^ (k + 1).
unfoldable pub digits : ℕ → ℕ → Bytes
digits zero n = (b'0' + n % 10) ∷ []
digits (suc k) n =
    let front = digits k (n / 10) in
    if ltb n 10 then (b'0' + n) ∷ [] else front ++ ((b'0' + n % 10) ∷ [])

-- Of a uint64, at most twenty digits.
unfoldable pub decimal : ℕ → Bytes
unfolding digits
decimal n = digits 19 n

-- `strconv.ErrSyntax` and `strconv.ErrRange`.
pub data NumError : Type 0 where
  syntax range : NumError

-- The loop of `strconv.ParseUint` in base 10, at 64 bits.
unfoldable pub scan : Bytes → ℕ → Try NumError ℕ
scan [] n = ok n
scan (c ∷ s) n =
    let m = n * 10 + (c - b'0') in
    let rest = scan s m in
    if ltb c b'0' || ltb b'9' c
    then err syntax
    else if leb 1844674407370955162 n || leb (2 ^ 64) m
    then err range
    else rest

-- The range test behind it: the magnitude of a negative, or of another number.
abbrev int_limit : Bool → ℕ
int_limit true = 2 ^ 63
int_limit false = 2 ^ 63 - 1

-- `strconv.Atoi`: the bit pattern of the int64.
unfoldable pub magnitude : Bool → Bytes → Try NumError ℕ
unfolding scan
magnitude negative [] = err syntax
magnitude negative (c ∷ s) = do
  n ← scan (c ∷ s) 0
  if ltb (int_limit negative) n
      then err range
      else ok (if negative then (2 ^ 64 - n) % 2 ^ 64 else n)

unfoldable pub atoi : Bytes → Try NumError ℕ
unfolding magnitude
atoi [] = err syntax
atoi (c ∷ s) =
    if c == b'-'
    then magnitude true s
    else if c == b'+'
    then magnitude false s
    else magnitude false (c ∷ s)

abbrev pub IsDigit : ℕ → Type 0
IsDigit c = (b'0' ≤ c) × (c ≤ b'9')

All-concat : (s : Bytes) (c : ℕ) → All IsDigit s → IsDigit c → All IsDigit (s ++ (c ∷ []))
All-concat [] c h d = (d, tt)
All-concat (x ∷ s) c h d = (h.0, All-concat s c h.1 d)

digits-IsDigit : (k n : ℕ) → All IsDigit (digits k n)
unfolding digits
digits-IsDigit zero n = omega arith
digits-IsDigit (suc k) n = elim (Bool-cases (ltb n 10)) [
  | inl small ↦ rw small (ground arith)
  | inr big ↦ rw big (All-concat (digits k (n / 10)) _ (digits-IsDigit k (n / 10)) (omega arith))
]

-- A decimal number is digits throughout.
pub decimal-IsDigit : (n : ℕ) → All IsDigit (decimal n)
unfolding decimal
decimal-IsDigit n = digits-IsDigit 19 n

scan-append : (s t : Bytes) (n : ℕ) → scan (s ++ t) n ≡ (scan s n >>= scan t)
unfolding scan
scan-append [] t n = refl
scan-append (c ∷ s) t n = ground (arith, scan-append s t (n * 10 + (c - b'0')))

scan_one : (n d r : ℕ) → d < 10 → r ≡ n * 10 + d → r < 2 ^ 64 → scan ((b'0' + d) ∷ []) n ≡ ok r
unfolding scan
scan_one n d r h e fits = ground arith

scan-digits : (k n : ℕ) → n < 10 ^ suc k → n < 2 ^ 64 → scan (digits k n) 0 ≡ ok n
unfolding digits
scan-digits zero n h fits =
    let same : n % 10 ≡ n = omega arith in rw same (scan_one 0 n n (omega arith) (omega arith) fits)
scan-digits (suc k) n h fits = elim (Bool-cases (ltb n 10)) [
  | inl small ↦ rw small (scan_one 0 n n (ground arith) (omega arith) fits)
  | inr big ↦
      rw
        (
          big,
          scan-append (digits k (n / 10)) ((b'0' + n % 10) ∷ []) 0,
          scan-digits k (n / 10) (omega (arith, pow-suc 10 (suc k))) (omega arith),
        )
        (scan_one (n / 10) (n % 10) n (omega arith) (omega arith) fits)
]

atoi_digits : (s : Bytes) → All IsDigit s → atoi s ≡ magnitude false s
unfolding atoi magnitude
atoi_digits [] h = refl
atoi_digits (c ∷ s) h = ground arith

magnitude-scan :
    (s : Bytes) (n : ℕ) → scan s 0 ≡ ok n → s ≢ [] → n < 2 ^ 63 → magnitude false s ≡ ok n
unfolding magnitude
magnitude-scan [] n e h fits = absurd (h refl)
magnitude-scan (c ∷ s) n e h fits = rw e (ground arith)

digits-ne-nil : (k n : ℕ) → digits k n ≢ []
unfolding digits
digits-ne-nil zero n = cons-ne-nil _ _
digits-ne-nil (suc k) n = elim (Bool-cases (ltb n 10)) [
  | inl small ↦ rw small (cons-ne-nil _ _)
  | inr big ↦ rw big (concat-ne-nil _ _)
]

-- An int is read back from its decimal print.
pub atoi-decimal : (n : ℕ) → n < 2 ^ 63 → atoi (decimal n) ≡ ok n
unfolding decimal
atoi-decimal n h =
    atoi_digits (digits 19 n) (digits-IsDigit 19 n)
    ∙ magnitude-scan (digits 19 n) n (scan-digits 19 n (omega arith) (omega arith))
        (digits-ne-nil 19 n) h
