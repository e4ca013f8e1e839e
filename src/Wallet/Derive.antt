-- ===== src/Wallet/Derive.antt =====
-- pkg/wallet/wallet.go: `GetPrvKeyFromHDWallet` and `GetPrvKeyFromMnemonicAndHDWPath`.
-- The packages hdkeychain and bip39 are the parameters of the section.
use yui_ibc_solidity.Prelude.{ℕ, ◌+◌, ◌%◌, ◌^◌, Bytes, Bool, not, if◌then◌else◌}
use yui_ibc_solidity.Prelude.Try.{Try, ok, err, ◌>>=◌}
use yui_ibc_solidity.Wallet.Path.{HdPathLevel, PathError, parse_hd_path_level}

-- The errors of `GetPrvKeyFromMnemonicAndHDWPath`; `library` is one of hdkeychain.
pub data WalletError (E : Type 0) : Type 0 where
  invalid_mnemonic : WalletError E
  bad_path : PathError → WalletError E
  library : E → WalletError E

abbrev pub path_result : {E A : Type 0} → Try PathError A → Try (WalletError E) A
path_result (ok a) = ok a
path_result (err e) = err (bad_path e)

abbrev pub library_result : {E A : Type 0} → Try E A → Try (WalletError E) A
library_result (ok a) = ok a
library_result (err e) = err (library e)

-- `hdkeychain.HardenedKeyStart + i` on uint32.
unfoldable pub hardened : ℕ → ℕ
hardened i = (2 ^ 31 + i) % 2 ^ 32

-- An extended key, a private key and an error of hdkeychain; `NewMaster`, `Child` and `ECPrivKey`.
module _ {Key Prv E : Type 0} (new_master : Bytes → Try E Key) (child : Key → ℕ → Try E Key)
    (ec_priv_key : Key → Try E Prv) where
  unfoldable pub get_prv_key_from_hd_wallet : Bytes → HdPathLevel → Try E Prv
  unfolding hardened
  get_prv_key_from_hd_wallet seed hp = do
    master_key ← new_master seed
    purpose ← child master_key (hardened hp.purpose)
    coin_type ← child purpose (hardened hp.coin_type)
    account ← child coin_type (hardened hp.account)
    change ← child account ((0 + hp.change) % 2 ^ 32)
    index ← child change hp.index
    ec_priv_key index

  -- `IsMnemonicValid` and `NewSeed`, the latter at the empty password.
  module _ (is_mnemonic_valid : Bytes → Bool) (new_seed : Bytes → Bytes) where
    unfoldable pub get_prv_key_from_mnemonic : Bytes → Bytes → Try (WalletError E) Prv
    unfolding get_prv_key_from_hd_wallet
    get_prv_key_from_mnemonic mnemonic path =
        if not (is_mnemonic_valid mnemonic)
        then err invalid_mnemonic
        else (path_result (parse_hd_path_level path) >>= λ hp.
            library_result (get_prv_key_from_hd_wallet (new_seed mnemonic) hp))
