-- ===== src/Client/Receipt.antt =====
-- pkg/client/eth.go and pkg/client/besu.go: receipts, and `TransactionReceipt` of the two clients. go-ethereum's client, with its
-- decoding of an answer, is a parameter. A nil slice of logs and a nil block number are none; a uint64 is its number.
pub mod Json
pub mod JsonLaws
use yui_ibc_solidity.Prelude.{ℕ, Bytes, List, [], Option, none, some, codes}
use yui_ibc_solidity.Prelude.Try.{Try, ok, err, ◌>>=◌}
use yui_ibc_solidity.Client.RevertReason.{
  Parsed, parsed, invalid_length, panic, parse_revert_reason,
}

pub record EthReceipt (Log : Type 0) : Type 0 where
  pub post_state : Bytes
  pub status : ℕ
  pub cumulative_gas_used : ℕ
  pub bloom : Bytes
  pub logs : Option (List Log)
  pub tx_hash : Bytes
  pub contract_address : Bytes
  pub gas_used : ℕ
  pub block_hash : Bytes
  pub block_number : Option ℕ
  pub transaction_index : ℕ

-- The bytes of the revert reason, and the spare bytes behind them in their array.
pub record BesuReceipt (Log : Type 0) : Type 0 where
  pub receipt : EthReceipt Log
  pub reason : Bytes
  pub spare : Bytes

-- The interface Receipt: what its methods return. The revert reason is none where the method panics.
pub record Receipt (Log : Type 0) : Type 0 where
  pub fields : EthReceipt Log
  pub revert_reason : Option Bytes

-- `RevertReason` of a Besu receipt: an error of the parser is a panic, as is a panic of it.
unfoldable pub reason_or_panic : Parsed → Option Bytes
reason_or_panic (parsed reason) = some reason
reason_or_panic invalid_length = none
reason_or_panic panic = none

unfoldable pub besu_receipt : {Log : Type 0} → BesuReceipt Log → Receipt Log
unfolding reason_or_panic
besu_receipt r = record {
  fields = r.receipt;
  revert_reason = reason_or_panic (parse_revert_reason r.reason r.spare);
}

unfoldable pub eth_receipt : {Log : Type 0} → EthReceipt Log → Receipt Log
eth_receipt r = record { fields = r; revert_reason = some [] }

-- An error of the client, or `ethereum.NotFound`.
pub data ReceiptError (E : Type 0) : Type 0 where
  receipt_failed : E → ReceiptError E
  not_found : ReceiptError E

-- `TransactionReceipt` of besuClient, over `CallContext` into a pointer, which is nil for a null answer.
unfoldable pub besu_transaction_receipt :
    {E Log : Type 0}
    → (Bytes → Bytes → Try E (Option (BesuReceipt Log)))
    → Bytes
    → Try (ReceiptError E) (Receipt Log)
unfolding besu_receipt
besu_transaction_receipt call_context tx_hash =
    elim (call_context (codes "eth_getTransactionReceipt") tx_hash) [
      | err e ↦ err (receipt_failed e)
      | ok r ↦ elim r [ none ↦ err not_found | some rc ↦ ok (besu_receipt rc) ]
    ]

-- A receipt of go-ethereum's core/types.
pub record GethReceipt (Log : Type 0) : Type 0 where
  pub post_state : Bytes
  pub status : ℕ
  pub cumulative_gas_used : ℕ
  pub bloom : Bytes
  pub logs : Option (List Log)
  pub tx_hash : Bytes
  pub contract_address : Bytes
  pub gas_used : ℕ
  pub block_hash : Bytes
  pub block_number : Option ℕ
  pub transaction_index : ℕ

-- `TransactionReceipt` of ethClient.
unfoldable pub eth_transaction_receipt :
    {E Log : Type 0}
    → (Bytes → Try E (GethReceipt Log))
    → Bytes
    → Try (ReceiptError E) (Receipt Log)
unfolding eth_receipt
eth_transaction_receipt transaction_receipt tx_hash = elim (transaction_receipt tx_hash) [
  | err e ↦ err (receipt_failed e)
  | ok rc ↦ ok (
      eth_receipt (record {
        post_state = rc.post_state;
        status = rc.status;
        cumulative_gas_used = rc.cumulative_gas_used;
        bloom = rc.bloom;
        logs = rc.logs;
        tx_hash = rc.tx_hash;
        contract_address = rc.contract_address;
        gas_used = rc.gas_used;
        block_hash = rc.block_hash;
        block_number = rc.block_number;
        transaction_index = rc.transaction_index;
      }))
]
