-- ===== src/Wire/Total.antt =====
-- The readers of varints and slices end on every input: without a panic, and with fewer bytes left. A loop that is out
-- of fuel would be `stuck`.
use yui_ibc_solidity.Prelude.{
  ℕ, zero, suc, ◌+◌, ◌-◌, ◌*◌, ◌%◌, ◌^◌, ◌≤◌, ◌<◌, ◌≡◌, refl, sym, ◌∙◌, subst, arith, Bytes, List,
  [], ◌∷◌, Bool, true, false, ltb, leb, ◌||◌, if◌then◌else◌, length, take, length-drop, bit_or,
}
use native.Mathlib.Nat.{mod-lt}
use yui_ibc_solidity.Prelude.Bits.{bit_or-lt, one-le-two_pow}
use yui_ibc_solidity.Wire.Result.{Result, ok, err, panic, stuck, ◌>>=◌}
use yui_ibc_solidity.Wire.Reader.{read_varint, int_lt, slice, read_slice, read_bytes, skip_varint}

-- A result that is neither a panic nor `stuck`, and whose value, if there is one, has the property `P`.
abbrev pub Ends {ℓ} : {A : Type ℓ} → (A → Type 0) → Result A → Type 0
Ends P (ok a) = P a
Ends P (err e) = Unit
Ends P panic = ⊥
Ends P stuck = ⊥

-- No property.
abbrev pub Any {ℓ} : {A : Type ℓ} → A → Type 0
Any a = Unit

-- The rule for a chain of steps: what the first step leaves, the second starts from.
module _ {ℓ κ} {A : Type ℓ} {B : Type κ} (Before : A → Type 0) (After : B → Type 0) where
  pub Ends-bind :
      (step : Result A) (next : A → Result B)
      → Ends Before step
      → ((x : A) → Before x → Ends After (next x))
      → Ends After (step >>= next)
  Ends-bind (ok x) next first second = second x first
  Ends-bind (err e) next first second = tt
  Ends-bind panic next first second = absurd first
  Ends-bind stuck next first second = absurd first

pub Ends-if {ℓ} :
    {A : Type ℓ} (P : A → Type 0) (b : Bool) (x y : Result A)
    → Ends P x
    → Ends P y
    → Ends P (if b then x else y)
Ends-if P true x y p q = p
Ends-if P false x y p q = q

abbrev WhenFalse : Bool → Type 0
WhenFalse true = ⊥
WhenFalse false = Unit

pub true-ne-false : ◌≡◌ {A = Bool} true false → ⊥
true-ne-false h = subst WhenFalse (sym h) tt

-- A guard: each branch with what the test says.
pub Ends-guard {ℓ} :
    {A : Type ℓ} (P : A → Type 0) (b : Bool) (x y : Result A)
    → (b ≡ true → Ends P x)
    → (b ≡ false → Ends P y)
    → Ends P (if b then x else y)
Ends-guard P true x y p q = p refl
Ends-guard P false x y p q = q refl

pub Ends-weaken {ℓ} :
    {A : Type ℓ} (P Q : A → Type 0) (r : Result A) → ((a : A) → P a → Q a) → Ends P r → Ends Q r
Ends-weaken P Q (ok a) k h = k a h
Ends-weaken P Q (err e) k h = tt
Ends-weaken P Q panic k h = h
Ends-weaken P Q stuck k h = h

-- A value of `w` bits, with fewer bytes left than `n`.
abbrev pub Reads : ℕ → ℕ → ℕ × Bytes → Type 0
Reads w n (v, rest) = (v < 2 ^ w) × (length rest < n)

or_group-lt : (w v b shift : ℕ) → v < 2 ^ w → bit_or v (b % 128 * 2 ^ shift % 2 ^ w) < 2 ^ w
or_group-lt w v b shift h = bit_or-lt w v _ h (mod-lt _ (one-le-two_pow w))

read_varint_loop-Ends :
    (w : ℕ) (src : Bytes) (v shift : ℕ)
    → v < 2 ^ w
    → Ends (Reads w (length src)) (read_varint w src v shift)
unfolding read_varint
read_varint_loop-Ends w [] v shift h = Ends-if (Reads w 0) (leb 64 shift) _ _ tt tt
read_varint_loop-Ends w (b ∷ rest) v shift h =
    let v' = bit_or v (b % 128 * 2 ^ shift % 2 ^ w) in
    let lt = or_group-lt w v b shift h in
    Ends-if (Reads w (suc (length rest))) (leb 64 shift) _ _ tt (
      Ends-if (Reads w (suc (length rest))) (ltb b 0x80) (ok (v', rest)) _ (lt, omega arith)
        (Ends-weaken (Reads w (length rest)) (Reads w (suc (length rest)))
          (read_varint w rest v' (shift + 7)) (λ (u, behind) k. (k.0, omega arith))
          (read_varint_loop-Ends w rest v' (shift + 7) lt)))

-- The varint loop ends, with a value of `w` bits, and takes a byte at least.
pub read_varint-Ends : (w : ℕ) (src : Bytes) → Ends (Reads w (length src)) (read_varint w src 0 0)
read_varint-Ends w src = read_varint_loop-Ends w src 0 0 (one-le-two_pow w)

pub skip_varint-Ends :
    (src : Bytes) (shift : ℕ) → Ends (λ rest. length rest ≤ length src) (skip_varint src shift)
unfolding skip_varint
skip_varint-Ends [] shift = Ends-if (λ rest. length rest ≤ 0) (leb 64 shift) _ _ tt tt
skip_varint-Ends (b ∷ src) shift =
    let P : Bytes → Type 0 = λ rest. length rest ≤ suc (length src) in
    Ends-if P (leb 64 shift) _ _ tt (
      Ends-if P (ltb b 0x80) (ok src) _ (omega arith) (
        Ends-weaken (λ rest. length rest ≤ length src) P (skip_varint src (shift + 7))
          (λ rest k. omega arith) (skip_varint-Ends src (shift + 7))))

length-take_le : {A : Type 0} (n : ℕ) (xs : List A) → length (take n xs) ≤ length xs
length-take_le zero xs = omega arith
length-take_le (suc n) [] = omega arith
length-take_le (suc n) (x ∷ xs) = omega (arith, length-take_le n xs)

-- The comparison of two ints, of which the first is not negative.
pub int_lt-le : (a b : ℕ) → a < 2 ^ 63 → b < 2 ^ 63 → int_lt a b ≡ false → b ≤ a
unfolding int_lt
int_lt-le a b ha hb h = ground (arith, h)

pub leb-lt : (a b : ℕ) → leb a b ≡ false → b < a
leb-lt a b h = ground (arith, h)

abbrev pub Remains : ℕ → Bytes × Bytes → Type 0
Remains n (s, rest) = (length s ≤ n) × (length rest ≤ n)

slice-Ends :
    (l index post : ℕ) (src : Bytes)
    → post < 2 ^ 63
    → index ≤ post
    → post ≤ l
    → Ends (Remains (length src)) (slice l index post src)
unfolding slice
slice-Ends l index post src h1 h2 h3 =
    let P = Remains (length src) in
    let fine : (leb (2 ^ 63) post || ltb post index || ltb l post) ≡ false = ground arith in
    Ends-guard P (leb (2 ^ 63) post || ltb post index || ltb l post) _ _
      (λ t. absurd (true-ne-false (sym t ∙ fine)))
      (λ _. (length-take_le (post - index) src, omega (arith, length-drop (post - index) src)))

-- The guards of a slice keep its bounds in order.
read_slice-Ends :
    (l n : ℕ) (src : Bytes)
    → l < 2 ^ 63
    → length src ≤ l
    → Ends (Remains (length src)) (read_slice l n src)
unfolding read_slice
read_slice-Ends l n src hl h =
    let P = Remains (length src) in
    let index = l - length src in
    let post = (index + n) % 2 ^ 64 in
    Ends-guard P (leb (2 ^ 63) n) _ _ (λ _. tt)
      (λ small.
        Ends-guard P (leb (2 ^ 63) post) _ _ (λ _. tt)
          (λ positive.
            Ends-guard P (int_lt l post) _ (slice l index post src) (λ _. tt)
              (λ inside.
                let n_lt = leb-lt (2 ^ 63) n small in
                let post_lt = leb-lt (2 ^ 63) post positive in
                let post_le = int_lt-le l post hl post_lt inside in
                slice-Ends l index post src post_lt (omega arith) post_le)))

pub read_bytes-Ends :
    (l : ℕ) (src : Bytes)
    → l < 2 ^ 63
    → length src ≤ l
    → Ends (Remains (length src)) (read_bytes l src)
unfolding read_bytes
read_bytes-Ends l src hl h =
    Ends-bind (Reads 64 (length src)) (Remains (length src)) (read_varint 64 src 0 0) _
      (read_varint-Ends 64 src)
      (λ (n, rest) k.
        Ends-weaken (Remains (length rest)) (Remains (length src)) (read_slice l n rest)
          (λ (s, behind) e. (omega arith, omega arith)) (read_slice-Ends l n rest hl (omega arith)))
