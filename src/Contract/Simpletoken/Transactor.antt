-- ===== src/Contract/Simpletoken/Transactor.antt =====
-- pkg/contract/simpletoken/simpletoken.go: the methods that send a transaction.
use yui_ibc_solidity.Prelude.{ℕ, [], ◌∷◌, codes}
use yui_ibc_solidity.Prelude.Try.{Try}
use yui_ibc_solidity.Contract.Bound.{Basic, BoundContract}

module _ {E Value CallOpts TransactOpts Tx : Type 0} (basic : Basic Value)
    (contract : BoundContract E Value CallOpts TransactOpts Tx) where
  unfoldable pub approve : TransactOpts → ℕ → ℕ → Try E Tx
  approve opts spender amount =
      contract.transact opts (codes "approve")
        (basic.address.box spender ∷ basic.big.box amount ∷ [])

  unfoldable pub decrease_allowance : TransactOpts → ℕ → ℕ → Try E Tx
  decrease_allowance opts spender subtracted_value =
      contract.transact opts (codes "decreaseAllowance")
        (basic.address.box spender ∷ basic.big.box subtracted_value ∷ [])

  unfoldable pub increase_allowance : TransactOpts → ℕ → ℕ → Try E Tx
  increase_allowance opts spender added_value =
      contract.transact opts (codes "increaseAllowance")
        (basic.address.box spender ∷ basic.big.box added_value ∷ [])

  unfoldable pub transfer : TransactOpts → ℕ → ℕ → Try E Tx
  transfer opts recipient amount =
      contract.transact opts (codes "transfer")
        (basic.address.box recipient ∷ basic.big.box amount ∷ [])

  unfoldable pub transfer_from : TransactOpts → ℕ → ℕ → ℕ → Try E Tx
  transfer_from opts sender recipient amount =
      contract.transact opts (codes "transferFrom")
        (basic.address.box sender ∷ basic.address.box recipient ∷ basic.big.box amount ∷ [])
