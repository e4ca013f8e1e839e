-- ===== src/Contract/Ics20bank/Caller.antt =====
-- pkg/contract/ics20bank/ics20bank.go: the read methods.
use yui_ibc_solidity.Prelude.{ℕ, Bytes, [], ◌∷◌, Bool, codes}
use yui_ibc_solidity.Prelude.Try.{Try, ok, ◌>>=◌}
use yui_ibc_solidity.Contract.Bound.{Basic, BoundContract, CallError, called, output}

module _ {E Value CallOpts TransactOpts Tx : Type 0} (basic : Basic Value)
    (contract : BoundContract E Value CallOpts TransactOpts Tx) where
  unfoldable pub admin_role : CallOpts → Try (CallError E) Bytes
  unfolding output
  admin_role opts = do
    out ← called (contract.call opts (codes "ADMIN_ROLE") [])
    out0 ← output out 0 basic.bytes32
    ok out0

  unfoldable pub default_admin_role : CallOpts → Try (CallError E) Bytes
  unfolding output
  default_admin_role opts = do
    out ← called (contract.call opts (codes "DEFAULT_ADMIN_ROLE") [])
    out0 ← output out 0 basic.bytes32
    ok out0

  unfoldable pub operator_role : CallOpts → Try (CallError E) Bytes
  unfolding output
  operator_role opts = do
    out ← called (contract.call opts (codes "OPERATOR_ROLE") [])
    out0 ← output out 0 basic.bytes32
    ok out0

  unfoldable pub balance_of : CallOpts → ℕ → Bytes → Try (CallError E) ℕ
  unfolding output
  balance_of opts account id = do
    out ← called (
        contract.call opts (codes "balanceOf")
          (basic.address.box account ∷ basic.string.box id ∷ []))
    out0 ← output out 0 basic.big
    ok out0

  unfoldable pub get_role_admin : CallOpts → Bytes → Try (CallError E) Bytes
  unfolding output
  get_role_admin opts role = do
    out ← called (contract.call opts (codes "getRoleAdmin") (basic.bytes32.box role ∷ []))
    out0 ← output out 0 basic.bytes32
    ok out0

  unfoldable pub get_role_member : CallOpts → Bytes → ℕ → Try (CallError E) ℕ
  unfolding output
  get_role_member opts role index = do
    out ← called (
        contract.call opts (codes "getRoleMember")
          (basic.bytes32.box role ∷ basic.big.box index ∷ []))
    out0 ← output out 0 basic.address
    ok out0

  unfoldable pub get_role_member_count : CallOpts → Bytes → Try (CallError E) ℕ
  unfolding output
  get_role_member_count opts role = do
    out ← called (contract.call opts (codes "getRoleMemberCount") (basic.bytes32.box role ∷ []))
    out0 ← output out 0 basic.big
    ok out0

  unfoldable pub has_role : CallOpts → Bytes → ℕ → Try (CallError E) Bool
  unfolding output
  has_role opts role account = do
    out ← called (
        contract.call opts (codes "hasRole")
          (basic.bytes32.box role ∷ basic.address.box account ∷ []))
    out0 ← output out 0 basic.bool
    ok out0
