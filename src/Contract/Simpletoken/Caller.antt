-- ===== src/Contract/Simpletoken/Caller.antt =====
-- pkg/contract/simpletoken/simpletoken.go: the read methods.
use yui_ibc_solidity.Prelude.{ℕ, Bytes, [], ◌∷◌, codes}
use yui_ibc_solidity.Prelude.Try.{Try, ok, ◌>>=◌}
use yui_ibc_solidity.Contract.Bound.{Basic, BoundContract, CallError, called, output}

module _ {E Value CallOpts TransactOpts Tx : Type 0} (basic : Basic Value)
    (contract : BoundContract E Value CallOpts TransactOpts Tx) where
  unfoldable pub allowance : CallOpts → ℕ → ℕ → Try (CallError E) ℕ
  unfolding output
  allowance opts owner spender = do
    out ← called (
        contract.call opts (codes "allowance")
          (basic.address.box owner ∷ basic.address.box spender ∷ []))
    out0 ← output out 0 basic.big
    ok out0

  unfoldable pub balance_of : CallOpts → ℕ → Try (CallError E) ℕ
  unfolding output
  balance_of opts account = do
    out ← called (contract.call opts (codes "balanceOf") (basic.address.box account ∷ []))
    out0 ← output out 0 basic.big
    ok out0

  unfoldable pub decimals : CallOpts → Try (CallError E) ℕ
  unfolding output
  decimals opts = do
    out ← called (contract.call opts (codes "decimals") [])
    out0 ← output out 0 basic.uint8
    ok out0

  unfoldable pub name : CallOpts → Try (CallError E) Bytes
  unfolding output
  name opts = do
    out ← called (contract.call opts (codes "name") [])
    out0 ← output out 0 basic.string
    ok out0

  unfoldable pub symbol : CallOpts → Try (CallError E) Bytes
  unfolding output
  symbol opts = do
    out ← called (contract.call opts (codes "symbol") [])
    out0 ← output out 0 basic.string
    ok out0

  unfoldable pub total_supply : CallOpts → Try (CallError E) ℕ
  unfolding output
  total_supply opts = do
    out ← called (contract.call opts (codes "totalSupply") [])
    out0 ← output out 0 basic.big
    ok out0
