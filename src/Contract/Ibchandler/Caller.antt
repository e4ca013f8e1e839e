-- ===== src/Contract/Ibchandler/Caller.antt =====
-- pkg/contract/ibchandler/ibchandler.go: the read methods.
use yui_ibc_solidity.Prelude.{ℕ, [], codes}
use yui_ibc_solidity.Prelude.Try.{Try, ok, ◌>>=◌}
use yui_ibc_solidity.Contract.Bound.{Basic, BoundContract, CallError, called, output}
use yui_ibc_solidity.Contract.Ibchandler.Structs.{Structs}

module _ {E Value CallOpts TransactOpts Tx : Type 0} (basic : Basic Value) (structs : Structs Value)
    (contract : BoundContract E Value CallOpts TransactOpts Tx) where
  unfoldable pub get_host_address : CallOpts → Try (CallError E) ℕ
  unfolding output
  get_host_address opts = do
    out ← called (contract.call opts (codes "getHostAddress") [])
    out0 ← output out 0 basic.address
    ok out0
