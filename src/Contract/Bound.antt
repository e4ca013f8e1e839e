-- ===== src/Contract/Bound.antt =====
-- pkg/contract: what the generated bindings share. go-ethereum's `bind.BoundContract` and `abi.ConvertType` are the records
-- `BoundContract` and `Boxed`; a value of the type interface{} is one of `Value`.
use yui_ibc_solidity.Prelude.{ℕ, Bytes, List, Bool, Option, none, some, get_elem?}
use yui_ibc_solidity.Prelude.Try.{Try, ok, err}

-- A Go type behind interface{}: a value of it as an interface{}, and `abi.ConvertType` to it, where none is a panic.
pub record Boxed (Value T : Type 0) : Type 0 where
  pub box : T → Value
  pub convert : Value → Option T

-- The Go types that every binding uses: string, []byte, [32]byte, common.Address, uint8, uint64, *big.Int, bool and []string.
pub record Basic (Value : Type 0) : Type 0 where
  pub string : Boxed Value Bytes
  pub bytes : Boxed Value Bytes
  pub bytes32 : Boxed Value Bytes
  pub address : Boxed Value ℕ
  pub uint8 : Boxed Value ℕ
  pub uint64 : Boxed Value ℕ
  pub big : Boxed Value ℕ
  pub bool : Boxed Value Bool
  pub strings : Boxed Value (List Bytes)

-- A contract at an address: `Call` of a method by its name on parameters, at call options, and `Transact` and `Transfer`, at
-- transaction options.
pub record BoundContract (E Value CallOpts TransactOpts Tx : Type 0) : Type 0 where
  pub call : CallOpts → Bytes → List Value → Try E (List Value)
  pub transact : TransactOpts → Bytes → List Value → Try E Tx
  pub transfer : TransactOpts → Try E Tx

-- The errors of a read method: that of `Call`, or a runtime panic.
pub data CallError (E : Type 0) : Type 0 where
  call_failed : E → CallError E
  call_panic : CallError E

abbrev pub called : {E A : Type 0} → Try E A → Try (CallError E) A
called (ok a) = ok a
called (err e) = err (call_failed e)

-- `*abi.ConvertType(out[i], new(T)).(*T)`: the index may be out of range, the conversion may panic.
abbrev pub converted : {E T : Type 0} → Option T → Try (CallError E) T
converted none = err call_panic
converted (some t) = ok t

unfoldable pub output : {E Value T : Type 0} → List Value → ℕ → Boxed Value T → Try (CallError E) T
output out i type = elim (get_elem? out i) [
  | none ↦ err call_panic
  | some v ↦ converted (type.convert v)
]
