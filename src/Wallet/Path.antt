-- ===== src/Wallet/Path.antt =====
-- pkg/wallet/wallet.go: `HDPathLevel`, its parser and its printer. A string is the list of its bytes.
use yui_ibc_solidity.Prelude.{
  ℕ, ◌%◌, ◌^◌, Bytes, List, [], ◌∷◌, ◌++◌, Bool, true, false, not, ◌&&◌, ◌==◌, if◌then◌else◌,
}
use yui_ibc_solidity.Prelude.Try.{Try, ok, err, ◌>>=◌}
use yui_ibc_solidity.Prelude.Decimal.{NumError, decimal, atoi}

pub record HdPathLevel : Type 0 where
  pub purpose : ℕ
  pub coin_type : ℕ
  pub account : ℕ
  pub change : ℕ
  pub index : ℕ

-- The errors of `ParseHDPathLevel`; `number` is one of `strconv.Atoi`.
pub data PathError : Type 0 where
  invalid_level wrong_prefix : PathError
  missing_apostrophe : Bytes → PathError
  number : NumError → PathError
  wrong_purpose wrong_change : PathError

-- `strings.Split`, at a single byte.
abbrev cons_head : ℕ → List Bytes → List Bytes
cons_head c [] = (c ∷ []) ∷ []
cons_head c (p ∷ ps) = (c ∷ p) ∷ ps

unfoldable pub split : ℕ → Bytes → List Bytes
split sep [] = [] ∷ []
split sep (c ∷ s) = let rest = split sep s in if c == sep then [] ∷ rest else cons_head c rest

-- `s[len(s)-1]` and `s[:len(s)-1]` of a string that is not empty.
unfoldable pub check_valid_apostrophe : Bytes → Bool
check_valid_apostrophe [] = false
check_valid_apostrophe (c ∷ []) = c == b'\''
check_valid_apostrophe (c ∷ d ∷ s) = check_valid_apostrophe (d ∷ s)

unfoldable pub but_last : Bytes → Bytes
but_last [] = []
but_last (c ∷ []) = []
but_last (c ∷ d ∷ s) = c ∷ but_last (d ∷ s)

-- `uint32(v)` keeps the low 32 bits of the int.
unfoldable pub str_to_uint32 : Bytes → Try NumError ℕ
str_to_uint32 s = do v ← atoi s; ok (v % 2 ^ 32)

-- `if err != nil { return nil, err }` at a number.
abbrev pub as_number : Try NumError ℕ → Try PathError ℕ
as_number (ok v) = ok v
as_number (err e) = err (number e)

unfoldable pub validate : HdPathLevel → Try PathError HdPathLevel
validate hp =
    if not (hp.purpose == 44)
    then err wrong_purpose
    else if not (hp.change == 0) && not (hp.change == 1)
    then err wrong_change
    else ok hp

-- `ParseHDPathLevel` on the five parts behind the prefix.
unfoldable pub parse_levels : Bytes → Bytes → Bytes → Bytes → Bytes → Try PathError HdPathLevel
unfolding str_to_uint32 but_last validate
parse_levels p0 p1 p2 p3 p4 = do
  purpose ← as_number (str_to_uint32 (but_last p0))
  coin_type ← as_number (str_to_uint32 (but_last p1))
  account ← as_number (str_to_uint32 (but_last p2))
  change ← as_number (str_to_uint32 p3)
  index ← as_number (str_to_uint32 p4)
  validate (record {
    purpose = purpose;
    coin_type = coin_type;
    account = account;
    change = change;
    index = index;
  })

-- The loop over the indices 0, 1 and 2.
unfoldable pub check_apostrophes : Bytes → Bytes → Bytes → Try PathError Bool
unfolding check_valid_apostrophe
check_apostrophes p0 p1 p2 =
    if not (check_valid_apostrophe p0)
    then err (missing_apostrophe p0)
    else if not (check_valid_apostrophe p1)
    then err (missing_apostrophe p1)
    else if not (check_valid_apostrophe p2)
    then err (missing_apostrophe p2)
    else ok true

abbrev pub is_prefix_m : Bytes → Bool
is_prefix_m [] = false
is_prefix_m (c ∷ []) = c == b'm'
is_prefix_m (c ∷ d ∷ s) = false

unfoldable pub parse_parts : List Bytes → Try PathError HdPathLevel
unfolding parse_levels check_apostrophes
parse_parts (p ∷ p0 ∷ p1 ∷ p2 ∷ p3 ∷ p4 ∷ []) =
    if not (is_prefix_m p)
    then err wrong_prefix
    else (check_apostrophes p0 p1 p2 >>= λ _. parse_levels p0 p1 p2 p3 p4)
parse_parts _ = err invalid_level

unfoldable pub parse_hd_path_level : Bytes → Try PathError HdPathLevel
unfolding parse_parts split
parse_hd_path_level path = parse_parts (split b'/' path)

-- `String`: the format m/%v'/%v'/%v'/%v/%v.
unfoldable pub print : HdPathLevel → Bytes
print hp =
    b'm'
    ∷ b'/'
    ∷ ((decimal hp.purpose ++ (b'\'' ∷ []))
        ++ b'/'
          ∷ ((decimal hp.coin_type ++ (b'\'' ∷ []))
              ++ b'/'
                ∷ ((decimal hp.account ++ (b'\'' ∷ []))
                    ++ b'/' ∷ (decimal hp.change ++ b'/' ∷ decimal hp.index))))
