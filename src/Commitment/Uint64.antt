-- ===== src/Commitment/Uint64.antt =====
-- pkg/testing/types.go: `uint64ToBigEndian`, and the order of the bytes it gives.
use yui_ibc_solidity.Prelude.{
  ℕ, ◌+◌, ◌*◌, ◌/◌, ◌%◌, ◌^◌, ◌<◌, ◌≡◌, inl, inr, refl, sym, ◌∙◌, arith, Bytes, [], ◌∷◌, Bool, true,
  false, suc, ltb, ◌==◌, if◌then◌else◌, Bool-cases, ltb→lt, lt→ltb, le→ltb,
}
use native.Mathlib.Nat.{mul-le-mul_right, mod-lt, mod-eq_of_lt}

-- `binary.BigEndian.PutUint64`.
unfoldable pub uint64_to_big_endian : ℕ → Bytes
uint64_to_big_endian i =
    (i / 2 ^ 56 % 256)
    ∷ (i / 2 ^ 48 % 256)
    ∷ (i / 2 ^ 40 % 256)
    ∷ (i / 2 ^ 32 % 256)
    ∷ (i / 2 ^ 24 % 256)
    ∷ (i / 2 ^ 16 % 256)
    ∷ (i / 2 ^ 8 % 256)
    ∷ (i % 256)
    ∷ []

-- The number that big-endian bytes stand for, after the number `n`.
abbrev pub from_big_endian : ℕ → Bytes → ℕ
from_big_endian n [] = n
from_big_endian n (b ∷ bs) = from_big_endian (n * 256 + b) bs

-- The order of byte strings.
abbrev pub bytes_ltb : Bytes → Bytes → Bool
bytes_ltb [] [] = false
bytes_ltb [] (c ∷ cs) = true
bytes_ltb (b ∷ bs) [] = false
bytes_ltb (b ∷ bs) (c ∷ cs) =
    let rest = bytes_ltb bs cs in if ltb b c then true else if b == c then rest else false

-- Every uint64 is read back from its bytes.
pub from_big_endian-uint64 : (i : ℕ) → i < 2 ^ 64 → from_big_endian 0 (uint64_to_big_endian i) ≡ i
unfolding uint64_to_big_endian
from_big_endian-uint64 i h = omega arith

larger : (b c : ℕ) → c < b → (b == c) ≡ false
larger b c h = ground arith

same_lead :
    (m b c x y : ℕ) (r : Bool)
    → b ≡ c
    → r ≡ ltb x y
    → (if false then true else if b == c then r else false) ≡ ltb (b * m + x) (c * m + y)
same_lead m b c x y r h e = rw (h) (ground (arith, e))

neither : (b c : ℕ) → ltb b c ≡ false → ltb c b ≡ false → b ≡ c
neither b c h k = ground arith

-- A larger leading byte outweighs whatever is below m.
leading_lt : (m b c x y : ℕ) → b < c → x < m → b * m + x < c * m + y
leading_lt m b c x y h hx = let step = mul-le-mul_right {m = suc b} {n = c} m h in omega arith

-- One byte more in front: numbers b * m + x with x below m.
lex_step :
    (m b c x y : ℕ) (r : Bool)
    → x < m
    → y < m
    → r ≡ ltb x y
    → (if ltb b c then true else if b == c then r else false) ≡ ltb (b * m + x) (c * m + y)
lex_step m b c x y r hx hy e = elim (Bool-cases (ltb b c)) [
  | inl h ↦ rw (h) (sym (lt→ltb _ _ (leading_lt m b c x y (ltb→lt b c h) hx)))
  | inr h ↦ elim (Bool-cases (ltb c b)) [
    | inl k ↦
        let above = leading_lt m c b y x (ltb→lt c b k) hy in
        rw (h, larger b c (ltb→lt c b k)) (sym (le→ltb _ _ (omega arith)))
    | inr k ↦ rw (h) (same_lead m b c x y r (neither b c h k) e)
  ]
]

level :
    (m i j : ℕ) (r : Bool)
    → 0 < m
    → ((n : ℕ) → (n / m % 256) * m + n % m ≡ n % (256 * m))
    → r ≡ ltb (i % m) (j % m)
    → (if ltb (i / m % 256) (j / m % 256)
        then true
        else if i / m % 256 == j / m % 256
        then r
        else false)
      ≡ ltb (i % (256 * m)) (j % (256 * m))
level m i j r h next_byte e =
    lex_step m (i / m % 256) (j / m % 256) (i % m) (j % m) r (mod-lt i h) (mod-lt j h) e
    ∙ rw (next_byte i, next_byte j) refl

last_level : (i j : ℕ) → bytes_ltb ((i % 256) ∷ []) ((j % 256) ∷ []) ≡ ltb (i % 256) (j % 256)
last_level i j = ground arith

small : (i j : ℕ) → i < 2 ^ 64 → j < 2 ^ 64 → ltb (i % 2 ^ 64) (j % 2 ^ 64) ≡ ltb i j
small i j hi hj = rw (mod-eq_of_lt hi, mod-eq_of_lt hj) refl

-- The bytes of uint64s are sorted as the numbers are.
pub bytes_ltb-uint64 :
    (i j : ℕ)
    → i < 2 ^ 64
    → j < 2 ^ 64
    → bytes_ltb (uint64_to_big_endian i) (uint64_to_big_endian j) ≡ ltb i j
unfolding uint64_to_big_endian
bytes_ltb-uint64 i j hi hj =
    level (2 ^ 56) i j _ (omega arith) (λ n. omega arith)
      (level (2 ^ 48) i j _ (omega arith) (λ n. omega arith)
        (level (2 ^ 40) i j _ (omega arith) (λ n. omega arith)
          (level (2 ^ 32) i j _ (omega arith) (λ n. omega arith)
            (level (2 ^ 24) i j _ (omega arith) (λ n. omega arith)
              (level (2 ^ 16) i j _ (omega arith) (λ n. omega arith)
                (level (2 ^ 8) i j _ (omega arith) (λ n. omega arith) (last_level i j)))))))
    ∙ small i j hi hj
