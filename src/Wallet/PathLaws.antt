-- ===== src/Wallet/PathLaws.antt =====
-- pkg/wallet/wallet.go: what `ParseHDPathLevel` accepts, and that it reads back what `String` prints.
use yui_ibc_solidity.Prelude.{
  ℕ, ◌%◌, ◌^◌, ◌<◌, ◌≡◌, ◌≢◌, ◌⊎◌, refl, ap, ◌∙◌, arith, Bytes, [], ◌∷◌, ◌++◌, true, All,
}
use native.Mathlib.Nat.{mod-eq_of_lt}
use yui_ibc_solidity.Prelude.Try.{ok}
use yui_ibc_solidity.Prelude.Decimal.{decimal, IsDigit, decimal-IsDigit, atoi-decimal}
use yui_ibc_solidity.Wallet.Path.{
  HdPathLevel, split, check_valid_apostrophe, but_last, str_to_uint32, as_number, validate,
  parse_levels, check_apostrophes, parse_parts, parse_hd_path_level, print,
}

abbrev Lacks : ℕ → Bytes → Type 0
Lacks sep = All (λ c. c ≢ sep)

split-append :
    (sep : ℕ) (p rest : Bytes) → Lacks sep p → split sep (p ++ sep ∷ rest) ≡ p ∷ split sep rest
unfolding split
split-append sep [] rest h = ground arith
split-append sep (c ∷ p) rest h = ground (arith, split-append sep p rest h.1)

split_last : (sep : ℕ) (p : Bytes) → Lacks sep p → split sep p ≡ p ∷ []
unfolding split
split_last sep [] h = refl
split_last sep (c ∷ p) h = ground (arith, split_last sep p h.1)

digits-Lacks : (s : Bytes) → All IsDigit s → Lacks b'/' s
digits-Lacks [] h = tt
digits-Lacks (c ∷ s) h = (λ e. omega arith, digits-Lacks s h.1)

quoted-Lacks : (s : Bytes) → All IsDigit s → Lacks b'/' (s ++ (b'\'' ∷ []))
quoted-Lacks [] h = (λ e. omega arith, tt)
quoted-Lacks (c ∷ s) h = (λ e. omega arith, quoted-Lacks s h.1)

apostrophe_quoted : (s : Bytes) → check_valid_apostrophe (s ++ (b'\'' ∷ [])) ≡ true
unfolding check_valid_apostrophe
apostrophe_quoted [] = refl
apostrophe_quoted (c ∷ []) = refl
apostrophe_quoted (c ∷ d ∷ s) = apostrophe_quoted (d ∷ s)

but_last_quoted : (s : Bytes) (c : ℕ) → but_last (s ++ (c ∷ [])) ≡ s
unfolding but_last
but_last_quoted [] c = refl
but_last_quoted (d ∷ []) c = refl
but_last_quoted (d ∷ e ∷ s) c = ap (λ (t : Bytes). d ∷ t) (but_last_quoted (e ∷ s) c)

-- A decimal number of an int is accepted as its low 32 bits, whatever its size.
pub str_to_uint32-decimal : (n : ℕ) → n < 2 ^ 63 → str_to_uint32 (decimal n) ≡ ok (n % 2 ^ 32)
unfolding str_to_uint32
str_to_uint32-decimal n h = rw (atoi-decimal n h)

-- The levels that BIP-44 allows, as uint32 values.
pub record IsValid (hp : HdPathLevel) : Type 0 where
  pub purpose : hp.purpose ≡ 44
  pub change : (hp.change ≡ 0) ⊎ (hp.change ≡ 1)
  pub coin_type : hp.coin_type < 2 ^ 32
  pub account : hp.account < 2 ^ 32
  pub index : hp.index < 2 ^ 32

number_low : (n : ℕ) → n < 2 ^ 63 → as_number (str_to_uint32 (decimal n)) ≡ ok (n % 2 ^ 32)
number_low n h = ap as_number (str_to_uint32-decimal n h)

-- The levels as `strToUint32` keeps them.
abbrev pub low_bits : HdPathLevel → HdPathLevel
low_bits hp = record {
  purpose = hp.purpose % 2 ^ 32;
  coin_type = hp.coin_type % 2 ^ 32;
  account = hp.account % 2 ^ 32;
  change = hp.change % 2 ^ 32;
  index = hp.index % 2 ^ 32;
}

-- Levels that Go's int holds.
pub record AreInts (hp : HdPathLevel) : Type 0 where
  pub purpose : hp.purpose < 2 ^ 63
  pub coin_type : hp.coin_type < 2 ^ 63
  pub account : hp.account < 2 ^ 63
  pub change : hp.change < 2 ^ 63
  pub index : hp.index < 2 ^ 63

valid-AreInts : (hp : HdPathLevel) → IsValid hp → AreInts hp
valid-AreInts hp v = record {
  purpose = omega arith;
  coin_type = omega arith;
  account = omega arith;
  change = omega arith;
  index = omega arith;
}

keep : (n : ℕ) → n < 2 ^ 32 → n % 2 ^ 32 ≡ n
keep n h = mod-eq_of_lt h

valid-low_bits : (hp : HdPathLevel) → IsValid hp → validate (low_bits hp) ≡ validate hp
valid-low_bits hp v =
    rw
      (
        keep hp.purpose (omega arith),
        keep hp.coin_type v.coin_type,
        keep hp.account v.account,
        keep hp.change (omega arith),
        keep hp.index v.index,
      )
      refl

validate_valid : (hp : HdPathLevel) → IsValid hp → validate hp ≡ ok hp
unfolding validate
validate_valid hp v = ground arith

split-print :
    (hp : HdPathLevel)
    → split b'/' (print hp)
      ≡ (b'm' ∷ [])
        ∷ (decimal hp.purpose ++ (b'\'' ∷ []))
        ∷ (decimal hp.coin_type ++ (b'\'' ∷ []))
        ∷ (decimal hp.account ++ (b'\'' ∷ []))
        ∷ decimal hp.change
        ∷ decimal hp.index
        ∷ []
unfolding print
split-print hp =
    let quoted = λ (n : ℕ). quoted-Lacks (decimal n) (decimal-IsDigit n) in
    let plain = λ (n : ℕ). digits-Lacks (decimal n) (decimal-IsDigit n) in
    split-append b'/' (b'm' ∷ []) _ (λ e. omega arith, tt)
    ∙ rw
        (
          split-append b'/' _ (_) (quoted hp.purpose),
          split-append b'/' _ (_) (quoted hp.coin_type),
          split-append b'/' _ (_) (quoted hp.account),
          split-append b'/' _ (_) (plain hp.change),
          split_last b'/' _ (plain hp.index),
        )
        refl

levels-print :
    (hp : HdPathLevel)
    → AreInts hp
    → parse_levels
        (decimal hp.purpose ++ (b'\'' ∷ []))
        (decimal hp.coin_type ++ (b'\'' ∷ []))
        (decimal hp.account ++ (b'\'' ∷ []))
        (decimal hp.change)
        (decimal hp.index)
      ≡ validate (low_bits hp)
unfolding parse_levels
levels-print hp v =
    rw
      (
        but_last_quoted (decimal hp.purpose) b'\'',
        but_last_quoted (decimal hp.coin_type) b'\'',
        but_last_quoted (decimal hp.account) b'\'',
        number_low hp.purpose v.purpose,
        number_low hp.coin_type v.coin_type,
        number_low hp.account v.account,
        number_low hp.change v.change,
        number_low hp.index v.index,
      )
      refl

-- The print of five levels below 2 ^ 63 is parsed as the check of their low 32 bits: a larger level wraps, with no error.
pub parse_hd_path_level-low_bits :
    (hp : HdPathLevel) → AreInts hp → parse_hd_path_level (print hp) ≡ validate (low_bits hp)
unfolding parse_hd_path_level parse_parts check_apostrophes
parse_hd_path_level-low_bits hp v =
    rw
      (
        split-print hp,
        apostrophe_quoted (decimal hp.purpose),
        apostrophe_quoted (decimal hp.coin_type),
        apostrophe_quoted (decimal hp.account),
      )
      (levels-print hp v)

-- Every BIP-44 path of uint32 levels is read back from its print.
pub parse_hd_path_level-print :
    (hp : HdPathLevel) → IsValid hp → parse_hd_path_level (print hp) ≡ ok hp
parse_hd_path_level-print hp v =
    parse_hd_path_level-low_bits hp (valid-AreInts hp v) ∙ valid-low_bits hp v ∙ validate_valid hp v
