-- ===== src/Contract/Ics20bank/Transactor.antt =====
-- pkg/contract/ics20bank/ics20bank.go: the methods that send a transaction.
use yui_ibc_solidity.Prelude.{ℕ, Bytes, [], ◌∷◌, codes}
use yui_ibc_solidity.Prelude.Try.{Try}
use yui_ibc_solidity.Contract.Bound.{Basic, BoundContract}

module _ {E Value CallOpts TransactOpts Tx : Type 0} (basic : Basic Value)
    (contract : BoundContract E Value CallOpts TransactOpts Tx) where
  unfoldable pub burn : TransactOpts → ℕ → Bytes → ℕ → Try E Tx
  burn opts account id amount =
      contract.transact opts (codes "burn")
        (basic.address.box account ∷ basic.string.box id ∷ basic.big.box amount ∷ [])

  unfoldable pub deposit : TransactOpts → ℕ → ℕ → ℕ → Try E Tx
  deposit opts token_contract amount receiver =
      contract.transact opts (codes "deposit")
        (basic.address.box token_contract ∷ basic.big.box amount ∷ basic.address.box receiver ∷ [])

  unfoldable pub grant_role : TransactOpts → Bytes → ℕ → Try E Tx
  grant_role opts role account =
      contract.transact opts (codes "grantRole")
        (basic.bytes32.box role ∷ basic.address.box account ∷ [])

  unfoldable pub mint : TransactOpts → ℕ → Bytes → ℕ → Try E Tx
  mint opts account id amount =
      contract.transact opts (codes "mint")
        (basic.address.box account ∷ basic.string.box id ∷ basic.big.box amount ∷ [])

  unfoldable pub renounce_role : TransactOpts → Bytes → ℕ → Try E Tx
  renounce_role opts role account =
      contract.transact opts (codes "renounceRole")
        (basic.bytes32.box role ∷ basic.address.box account ∷ [])

  unfoldable pub revoke_role : TransactOpts → Bytes → ℕ → Try E Tx
  revoke_role opts role account =
      contract.transact opts (codes "revokeRole")
        (basic.bytes32.box role ∷ basic.address.box account ∷ [])

  unfoldable pub set_operator : TransactOpts → ℕ → Try E Tx
  set_operator opts operator =
      contract.transact opts (codes "setOperator") (basic.address.box operator ∷ [])

  unfoldable pub transfer_from : TransactOpts → ℕ → ℕ → Bytes → ℕ → Try E Tx
  transfer_from opts from to id amount = contract.transact opts (codes "transferFrom") (
      basic.address.box from
      ∷ basic.address.box to
      ∷ basic.string.box id
      ∷ basic.big.box amount
      ∷ [])

  unfoldable pub withdraw : TransactOpts → ℕ → ℕ → ℕ → Try E Tx
  withdraw opts token_contract amount receiver =
      contract.transact opts (codes "withdraw")
        (basic.address.box token_contract ∷ basic.big.box amount ∷ basic.address.box receiver ∷ [])
