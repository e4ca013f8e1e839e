-- ===== src/Client/TxOpts.antt =====
-- pkg/client/chain.go: `MakeGenTxOpts`. The EIP-155 signer and the package crypto of go-ethereum are the record `Signing`.
use yui_ibc_solidity.Prelude.{ℕ, Bytes, not, ◌==◌, if◌then◌else◌}
use yui_ibc_solidity.Prelude.Try.{Try, ok, err, ◌>>=◌}

pub record Signing (E Key Tx : Type 0) : Type 0 where
  pub pubkey_to_address : Key → ℕ
  pub hash : ℕ → Tx → Bytes
  pub sign : Bytes → Key → Try E Bytes
  pub with_signature : ℕ → Tx → Bytes → Try E Tx

pub data TxOptsError (E : Type 0) : Type 0 where
  tx_failed : E → TxOptsError E
  not_authorized : TxOptsError E

pub record TransactOpts (E Tx : Type 0) : Type 0 where
  pub from : ℕ
  pub gas_limit : ℕ
  pub signer : ℕ → Tx → Try (TxOptsError E) Tx

abbrev pub tx_result : {E A : Type 0} → Try E A → Try (TxOptsError E) A
tx_result (ok a) = ok a
tx_result (err e) = err (tx_failed e)

module _ {E Key Tx : Type 0} (signing : Signing E Key Tx) (chain_id : ℕ) (prv : Key) where
  -- The function that the options sign with.
  unfoldable pub sign_tx : ℕ → ℕ → Tx → Try (TxOptsError E) Tx
  sign_tx addr address tx =
      if not (address == addr)
      then err not_authorized
      else (tx_result (signing.sign (signing.hash chain_id tx) prv) >>= λ signature.
          tx_result (signing.with_signature chain_id tx signature))

  unfoldable pub make_gen_tx_opts : TransactOpts E Tx
  unfolding sign_tx
  make_gen_tx_opts =
      let addr = signing.pubkey_to_address prv in
      record { from = addr; gas_limit = 6382056; signer = sign_tx addr }
