-- ===== src/Tests/Keys.antt =====
-- pkg/wallet/wallet.go at a derivation whose keys are the paths themselves.
use yui_ibc_solidity.Prelude.{
  ℕ, ◌+◌, ◌^◌, ◌≡◌, ◌++◌, refl, inl, arith, Bytes, Bool, true, List, [], ◌∷◌, codes, if◌then◌else◌,
}
use yui_ibc_solidity.Prelude.Try.{Try, ok, err}
use yui_ibc_solidity.Wallet.Path.{HdPathLevel, parse_hd_path_level, split, print, validate}
use yui_ibc_solidity.Wallet.PathLaws.{
  IsValid, AreInts, low_bits, parse_hd_path_level-print, parse_hd_path_level-low_bits,
}
use yui_ibc_solidity.Wallet.PathSound.{Accepted, parse_hd_path_level_sound}
use yui_ibc_solidity.Wallet.Derive.{
  invalid_mnemonic, library_result, get_prv_key_from_hd_wallet, get_prv_key_from_mnemonic,
}
use yui_ibc_solidity.Wallet.DeriveLaws.{
  bip44, derive, account_path, ethereum, get_prv_key_from_hd_wallet-derive, account_path-derive,
}

abbrev new_master : Bytes → Try ℕ (List ℕ)
new_master [] = err 1
new_master (b ∷ bs) = ok []

abbrev child : List ℕ → ℕ → Try ℕ (List ℕ)
child path i = ok (path ++ (i ∷ []))

abbrev ec_priv_key : List ℕ → Try ℕ (List ℕ)
ec_priv_key path = ok path

abbrev second_account : HdPathLevel
second_account = record { purpose = 44; coin_type = 60; account = 1; change = 0; index = 7 }

second_account-IsValid : IsValid second_account
second_account-IsValid = record {
  purpose = refl;
  change = inl refl;
  coin_type = omega arith;
  account = omega arith;
  index = omega arith;
}

parse_hd_path_level-print_example : parse_hd_path_level (print second_account) ≡ ok second_account
parse_hd_path_level-print_example = parse_hd_path_level-print second_account second_account-IsValid

-- 4294967340 is 2 ^ 32 + 44.
abbrev wide : HdPathLevel
wide = record { purpose = 4294967340; coin_type = 60; account = 0; change = 4294967297; index = 1 }

wide-AreInts : AreInts wide
wide-AreInts = record {
  purpose = omega arith;
  coin_type = omega arith;
  account = omega arith;
  change = omega arith;
  index = omega arith;
}

parse_hd_path_level-low_bits_example : parse_hd_path_level (print wide) ≡ validate (low_bits wide)
parse_hd_path_level-low_bits_example = parse_hd_path_level-low_bits wide wide-AreInts

abbrev relayer_path : Bytes
relayer_path = codes "m/44'/60'/0'/0/5"

relayer_path_parsed :
    parse_hd_path_level relayer_path
    ≡ ok (record { purpose = 44; coin_type = 60; account = 0; change = 0; index = 5 })
unfolding parse_hd_path_level yui_ibc_solidity.Prelude.Decimal.atoi
relayer_path_parsed = refl

parse_hd_path_level_sound_example :
    Accepted
      (split b'/' relayer_path)
      (record { purpose = 44; coin_type = 60; account = 0; change = 0; index = 5 })
parse_hd_path_level_sound_example = parse_hd_path_level_sound relayer_path relayer_path_parsed

get_prv_key_from_hd_wallet-derive_example :
    get_prv_key_from_hd_wallet new_master child ec_priv_key (1 ∷ []) second_account
    ≡ derive new_master child ec_priv_key (1 ∷ []) (bip44 second_account)
get_prv_key_from_hd_wallet-derive_example =
    get_prv_key_from_hd_wallet-derive new_master child ec_priv_key (1 ∷ []) second_account
      second_account-IsValid (omega arith) (omega arith)

abbrev is_mnemonic_valid : Bytes → Bool
is_mnemonic_valid _ = true

abbrev new_seed : Bytes → Bytes
new_seed mnemonic = 0 ∷ mnemonic

account_path-derive_example :
    get_prv_key_from_mnemonic new_master child ec_priv_key is_mnemonic_valid new_seed []
      (account_path 5)
    ≡ (if is_mnemonic_valid []
        then library_result (derive new_master child ec_priv_key (new_seed []) (bip44 (ethereum 5)))
        else err invalid_mnemonic)
account_path-derive_example =
    account_path-derive new_master child ec_priv_key is_mnemonic_valid new_seed [] 5 (omega arith)
