-- ===== src/Wallet/DeriveLaws.antt =====
-- pkg/wallet/wallet.go: the keys of `GetPrvKeyFromHDWallet` are those of BIP-44; also pkg/testing/chains.go: the
-- path `Chain.prvKey` asks for.
use yui_ibc_solidity.Prelude.{
  ℕ, ◌+◌, ◌^◌, ◌<◌, ◌≡◌, refl, ap, inl, ◌∙◌, arith, Bytes, List, [], ◌∷◌, ◌++◌, Bool, true, false,
  not, if◌then◌else◌, codes,
}
use yui_ibc_solidity.Prelude.Try.{Try, ok, err, ◌>>=◌, >>=-assoc, >>=-ap}
use yui_ibc_solidity.Prelude.Decimal.{decimal}
use yui_ibc_solidity.Wallet.Path.{HdPathLevel, parse_hd_path_level, print}
use yui_ibc_solidity.Wallet.PathLaws.{IsValid, parse_hd_path_level-print}
use yui_ibc_solidity.Wallet.Derive.{
  invalid_mnemonic, library_result, hardened, get_prv_key_from_hd_wallet, get_prv_key_from_mnemonic,
}

-- The path of `Chain.prvKey`: the format m/44'/60'/0'/0/%v.
unfoldable pub account_path : ℕ → Bytes
account_path index = codes "m/44'/60'/0'/0/" ++ decimal index

abbrev pub ethereum : ℕ → HdPathLevel
ethereum index = record { purpose = 44; coin_type = 60; account = 0; change = 0; index = index }

-- A BIP-44 path as the child numbers of BIP-32, and the walk along them.
abbrev pub bip44 : HdPathLevel → List ℕ
bip44 hp =
    (2 ^ 31 + 44) ∷ (2 ^ 31 + hp.coin_type) ∷ (2 ^ 31 + hp.account) ∷ hp.change ∷ hp.index ∷ []

unfoldable pub descend : {Key E : Type 0} → (Key → ℕ → Try E Key) → List ℕ → Key → Try E Key
descend child [] k = ok k
descend child (i ∷ is) k = child k i >>= descend child is

-- One step of a walk, whose child number is known to be j.
descend_step :
    {Key Prv E : Type 0} (child : Key → ℕ → Try E Key) (k : Key) (i j : ℕ) (is : List ℕ)
    {f : Key → Try E Prv} (g : Key → Try E Prv)
    → i ≡ j
    → ((k1 : Key) → f k1 ≡ (descend child is k1 >>= g))
    → (child k i >>= f) ≡ (descend child (j ∷ is) k >>= g)
unfolding descend
descend_step child k i j is {f} g e h =
    ap (λ n. child k n >>= f) e
    ∙ >>=-ap (child k j) f _ h
    ∙ >>=-assoc (child k j) (descend child is) g

hardened-lt : (i : ℕ) → i < 2 ^ 31 → hardened i ≡ 2 ^ 31 + i
unfolding hardened
hardened-lt i h = omega arith

ethereum-IsValid : (index : ℕ) → index < 2 ^ 32 → IsValid (ethereum index)
ethereum-IsValid index h = record {
  purpose = refl;
  change = inl refl;
  coin_type = omega arith;
  account = omega arith;
  index = h;
}

account_path-print : (index : ℕ) → account_path index ≡ print (ethereum index)
unfolding account_path print decimal
account_path-print index = refl

account_path-parse :
    (index : ℕ) → index < 2 ^ 32 → parse_hd_path_level (account_path index) ≡ ok (ethereum index)
account_path-parse index h =
    rw (account_path-print index) (parse_hd_path_level-print _ (ethereum-IsValid index h))

mnemonic_cases : {A : Type 0} (b : Bool) (x y : A) → (if not b then x else y) ≡ (if b then y else x)
mnemonic_cases true x y = refl
mnemonic_cases false x y = refl

module _ {Key Prv E : Type 0} (new_master : Bytes → Try E Key) (child : Key → ℕ → Try E Key)
    (ec_priv_key : Key → Try E Prv) where
  -- The BIP-32 key at the end of a walk from the seed's master key.
  abbrev pub derive : Bytes → List ℕ → Try E Prv
  derive seed path = new_master seed >>= λ k. descend child path k >>= ec_priv_key

  -- On a BIP-44 path whose coin type and account are below 2 ^ 31, the key is the one BIP-32 derives along the path's
  -- three hardened and two plain child numbers, errors included.
  pub get_prv_key_from_hd_wallet-derive :
      (seed : Bytes) (hp : HdPathLevel)
      → IsValid hp
      → hp.coin_type < 2 ^ 31
      → hp.account < 2 ^ 31
      → get_prv_key_from_hd_wallet new_master child ec_priv_key seed hp ≡ derive seed (bip44 hp)
  unfolding get_prv_key_from_hd_wallet descend
  get_prv_key_from_hd_wallet-derive seed hp v hc ha =
      let is3 = hp.index ∷ [] in
      let is2 = hp.change ∷ is3 in
      let is1 = (2 ^ 31 + hp.account) ∷ is2 in
      let is0 = (2 ^ 31 + hp.coin_type) ∷ is1 in
      >>=-ap (new_master seed) _ _ λ k0.
        descend_step child k0 _ _ is0 ec_priv_key
          (ap hardened v.purpose ∙ hardened-lt 44 (omega arith))
          λ k1. descend_step child k1 _ _ is1 ec_priv_key (hardened-lt hp.coin_type hc) λ k2.
            descend_step child k2 _ _ is2 ec_priv_key (hardened-lt hp.account ha) λ k3.
              descend_step child k3 _ hp.change is3 ec_priv_key (omega arith)
                λ k4. descend_step child k4 _ hp.index [] ec_priv_key refl λ k5. refl

  module _ (is_mnemonic_valid : Bytes → Bool) (new_seed : Bytes → Bytes) where
    -- The key `Chain.prvKey` asks for is the one at m/44'/60'/0'/0/index, for every uint32 index, when the mnemonic is
    -- valid; without a valid mnemonic there is an error whatever the path.
    pub account_path-derive :
        (mnemonic : Bytes) (index : ℕ)
        → index < 2 ^ 32
        → get_prv_key_from_mnemonic new_master child ec_priv_key is_mnemonic_valid new_seed mnemonic
            (account_path index)
          ≡ (if is_mnemonic_valid mnemonic
              then library_result (derive (new_seed mnemonic) (bip44 (ethereum index)))
              else err invalid_mnemonic)
    unfolding get_prv_key_from_mnemonic
    account_path-derive mnemonic index h =
        let hp = ethereum index in
        rw
          (
            account_path-parse index h,
            get_prv_key_from_hd_wallet-derive (new_seed mnemonic) hp (ethereum-IsValid index h)
                (omega arith) (omega arith),
          )
          (mnemonic_cases (is_mnemonic_valid mnemonic) _ _)
