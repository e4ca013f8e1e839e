-- ===== src/Wallet/PathSound.antt =====
-- pkg/wallet/wallet.go: what a path that `ParseHDPathLevel` accepts looks like.
use yui_ibc_solidity.Prelude.{
  ℕ, ◌%◌, ◌^◌, ◌<◌, ◌≡◌, ◌⊎◌, inl, inr, refl, sym, ap, ◌∙◌, arith, Bytes, List, [], ◌∷◌, Bool, true,
  Bool-cases, subst, length, some,
}
use mathlib.Core.List.{head?}
use yui_ibc_solidity.Prelude.Try.{Try, ok, err, ◌>>=◌, >>=-eq_ok}
use yui_ibc_solidity.Prelude.Decimal.{NumError, atoi}
use yui_ibc_solidity.Wallet.Path.{
  HdPathLevel, split, check_valid_apostrophe, but_last, str_to_uint32, as_number, validate,
  parse_levels, check_apostrophes, parse_parts, parse_hd_path_level, is_prefix_m,
}
use yui_ibc_solidity.Wallet.PathLaws.{IsValid}

low_bits_lt :
    (r : Try NumError ℕ) {n : ℕ} → as_number (r >>= λ v. ok (v % 2 ^ 32)) ≡ ok n → n < 2 ^ 32
low_bits_lt (ok v) {n} h = ground arith
low_bits_lt (err e) h = cc

str_to_uint32-lt : (s : Bytes) {n : ℕ} → as_number (str_to_uint32 s) ≡ ok n → n < 2 ^ 32
unfolding str_to_uint32
str_to_uint32-lt s {n} h = low_bits_lt (atoi s) h

validate_sound :
    (hp : HdPathLevel) {r : HdPathLevel}
    → validate hp ≡ ok r
    → (r ≡ hp) × (hp.purpose ≡ 44) × ((hp.change ≡ 0) ⊎ (hp.change ≡ 1))
unfolding validate
validate_sound hp h = ground arith

levels_sound :
    (purpose coin_type account change index : ℕ) {r : HdPathLevel}
    → coin_type < 2 ^ 32
    → account < 2 ^ 32
    → index < 2 ^ 32
    → validate (record {
      purpose = purpose;
      coin_type = coin_type;
      account = account;
      change = change;
      index = index;
    })
      ≡ ok r
    → IsValid r
levels_sound purpose coin_type account change index {r} hc ha hi h =
    let (same, is_44, is_change) = validate_sound _ h in
    subst IsValid (sym same)
      (record { purpose = is_44; change = is_change; coin_type = hc; account = ha; index = hi })

parse_levels_sound :
    (p0 p1 p2 p3 p4 : Bytes) {r : HdPathLevel} → parse_levels p0 p1 p2 p3 p4 ≡ ok r → IsValid r
unfolding parse_levels
parse_levels_sound p0 p1 p2 p3 p4 {r} h =
    let (purpose, e0, h0) = >>=-eq_ok (as_number (str_to_uint32 (but_last p0))) _ h in
    let (coin_type, e1, h1) = >>=-eq_ok (as_number (str_to_uint32 (but_last p1))) _ h0 in
    let (account, e2, h2) = >>=-eq_ok (as_number (str_to_uint32 (but_last p2))) _ h1 in
    let (change, e3, h3) = >>=-eq_ok (as_number (str_to_uint32 p3)) _ h2 in
    let (index, e4, h4) = >>=-eq_ok (as_number (str_to_uint32 p4)) _ h3 in
    levels_sound purpose coin_type account change index (str_to_uint32-lt _ e1)
      (str_to_uint32-lt _ e2) (str_to_uint32-lt p4 e4) h4

check_sound :
    (p0 p1 p2 : Bytes) {b : Bool}
    → check_apostrophes p0 p1 p2 ≡ ok b
    → (check_valid_apostrophe p0 ≡ true)
      × (check_valid_apostrophe p1 ≡ true)
      × (check_valid_apostrophe p2 ≡ true)
unfolding check_apostrophes
check_sound p0 p1 p2 h = ground arith

-- What `ParseHDPathLevel` accepts.
pub record Accepted (parts : List Bytes) (hp : HdPathLevel) : Type 0 where
  pub six_parts : length parts ≡ 6
  pub prefix_m : head? parts ≡ some (b'm' ∷ [])
  pub valid : IsValid hp

is_prefix_m-eq : (p : Bytes) → is_prefix_m p ≡ true → p ≡ b'm' ∷ []
is_prefix_m-eq [] h = cc
is_prefix_m-eq (c ∷ []) h = ground arith
is_prefix_m-eq (c ∷ d ∷ s) h = cc

behind_prefix :
    (p0 p1 p2 p3 p4 : Bytes) {r : HdPathLevel}
    → (check_apostrophes p0 p1 p2 >>= λ _. parse_levels p0 p1 p2 p3 p4) ≡ ok r
    → IsValid r
behind_prefix p0 p1 p2 p3 p4 h =
    let (b, _, h1) = >>=-eq_ok (check_apostrophes p0 p1 p2) _ h in
    parse_levels_sound p0 p1 p2 p3 p4 h1

six_sound :
    (p p0 p1 p2 p3 p4 : Bytes) {r : HdPathLevel}
    → parse_parts (p ∷ p0 ∷ p1 ∷ p2 ∷ p3 ∷ p4 ∷ []) ≡ ok r
    → (is_prefix_m p ≡ true) × IsValid r
unfolding parse_parts
six_sound p p0 p1 p2 p3 p4 {r} h = elim (Bool-cases (is_prefix_m p)) [
  | inl e ↦ (e, behind_prefix p0 p1 p2 p3 p4 (sym (rw (e) refl) ∙ h))
  | inr e ↦ cc
]

parse_parts_sound :
    (parts : List Bytes) {r : HdPathLevel} → parse_parts parts ≡ ok r → Accepted parts r
unfolding parse_parts
parse_parts_sound [] h = cc
parse_parts_sound (p ∷ []) h = cc
parse_parts_sound (p ∷ p0 ∷ []) h = cc
parse_parts_sound (p ∷ p0 ∷ p1 ∷ []) h = cc
parse_parts_sound (p ∷ p0 ∷ p1 ∷ p2 ∷ []) h = cc
parse_parts_sound (p ∷ p0 ∷ p1 ∷ p2 ∷ p3 ∷ []) h = cc
parse_parts_sound (p ∷ p0 ∷ p1 ∷ p2 ∷ p3 ∷ p4 ∷ []) h =
    let (is_m, v) = six_sound p p0 p1 p2 p3 p4 h in
    record { six_parts = refl; prefix_m = ap some (is_prefix_m-eq p is_m); valid = v }
parse_parts_sound (p ∷ p0 ∷ p1 ∷ p2 ∷ p3 ∷ p4 ∷ p5 ∷ s) h = cc

-- What is parsed has six parts between slashes, the first of them m, and is a BIP-44 path of 32-bit numbers.
pub parse_hd_path_level_sound :
    (path : Bytes) {r : HdPathLevel}
    → parse_hd_path_level path ≡ ok r
    → Accepted (split b'/' path) r
unfolding parse_hd_path_level
parse_hd_path_level_sound path h = parse_parts_sound (split b'/' path) h
