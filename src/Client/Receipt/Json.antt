-- ===== src/Client/Receipt/Json.antt =====
-- pkg/client/besu.go: `MarshalJSON` and `UnmarshalJSON` of a Besu receipt. The package json is a parameter, at the two structs
-- that the functions declare; `UnmarshalJSON` changes the receipt that it is called on, also where it ends in an error.
use yui_ibc_solidity.Prelude.{ℕ, Bytes, List, Option, none, some, codes}
use yui_ibc_solidity.Prelude.Try.{Try, ok, err}
use yui_ibc_solidity.Client.Receipt.{EthReceipt, BesuReceipt}

-- The struct that is encoded.
pub record Encoded (Log : Type 0) : Type 0 where
  pub root : Bytes
  pub status : ℕ
  pub cumulative_gas_used : ℕ
  pub logs_bloom : Bytes
  pub logs : Option (List Log)
  pub transaction_hash : Bytes
  pub contract_address : Bytes
  pub gas_used : ℕ
  pub block_hash : Bytes
  pub block_number : Option ℕ
  pub transaction_index : ℕ
  pub revert_reason : Bytes

-- The struct that is decoded: a field that is missing, or null, is nil. The revert reason comes with the spare bytes behind it.
pub record Decoded (Log : Type 0) : Type 0 where
  pub root : Option Bytes
  pub status : Option ℕ
  pub cumulative_gas_used : Option ℕ
  pub logs_bloom : Option Bytes
  pub logs : Option (List Log)
  pub transaction_hash : Option Bytes
  pub contract_address : Option Bytes
  pub gas_used : Option ℕ
  pub block_hash : Option Bytes
  pub block_number : Option ℕ
  pub transaction_index : Option ℕ
  pub revert_reason : Option (Bytes × Bytes)

-- An error of json, or the error that names a missing field.
pub data JsonError (E : Type 0) : Type 0 where
  json : E → JsonError E
  missing_required_field : Bytes → JsonError E

pub record JsonCodec (E Log : Type 0) : Type 0 where
  pub marshal : Encoded Log → Try E Bytes
  pub unmarshal : Bytes → Try E (Decoded Log)

-- `if dec.X != nil { r.X_ = *dec.X }`
abbrev pub if_present : {A R : Type 0} → Option A → (A → R → R) → R → R
if_present none set r = r
if_present (some a) set r = set a r

-- `if dec.X == nil { return errors.New(…) }; r.X_ = *dec.X`, with the receipt and the error that the function ends with.
unfoldable pub required :
    {A E R : Type 0}
    → Option A
    → Bytes
    → (A → R → R)
    → R
    → (R → R × Option (JsonError E))
    → R × Option (JsonError E)
required none name set r rest = (r, some (missing_required_field name))
required (some a) name set r rest = rest (set a r)

module _ {Log : Type 0} where
  abbrev on : (EthReceipt Log → EthReceipt Log) → BesuReceipt Log → BesuReceipt Log
  on f r = record r { receipt = f r.receipt }

  unfoldable pub fill_optional : Decoded Log → BesuReceipt Log → BesuReceipt Log
  fill_optional dec r0 =
      let r1 = if_present dec.block_hash (λ v. on (λ t. record t { block_hash = v })) r0 in
      let r2 = if_present dec.block_number (λ v. on (λ t. record t { block_number = some v })) r1 in
      let r3 =
        if_present dec.transaction_index (λ v. on (λ t. record t { transaction_index = v })) r2 in
      if_present dec.revert_reason (λ v r. record r { reason = v.0; spare = v.1 }) r3

  unfoldable pub encode : BesuReceipt Log → Encoded Log
  encode r = record {
    root = r.receipt.post_state;
    status = r.receipt.status;
    cumulative_gas_used = r.receipt.cumulative_gas_used;
    logs_bloom = r.receipt.bloom;
    logs = r.receipt.logs;
    transaction_hash = r.receipt.tx_hash;
    contract_address = r.receipt.contract_address;
    gas_used = r.receipt.gas_used;
    block_hash = r.receipt.block_hash;
    block_number = r.receipt.block_number;
    transaction_index = r.receipt.transaction_index;
    revert_reason = r.reason;
  }

module _ {E Log : Type 0} where
  unfoldable pub fill : Decoded Log → BesuReceipt Log → BesuReceipt Log × Option (JsonError E)
  unfolding required fill_optional
  fill dec r0 =
      let r1 = if_present dec.root (λ v. on (λ t. record t { post_state = v })) r0 in
      let r2 = if_present dec.status (λ v. on (λ t. record t { status = v })) r1 in
      required dec.cumulative_gas_used (codes "cumulativeGasUsed")
        (λ v. on (λ t. record t { cumulative_gas_used = v })) r2
        (λ r3.
          required dec.logs_bloom (codes "logsBloom") (λ v. on (λ t. record t { bloom = v })) r3
            (λ r4.
              required dec.logs (codes "logs") (λ v. on (λ t. record t { logs = some v })) r4
                (λ r5.
                  required dec.transaction_hash (codes "transactionHash")
                    (λ v. on (λ t. record t { tx_hash = v })) r5
                    (λ r6.
                      required dec.gas_used (codes "gasUsed")
                        (λ v. on (λ t. record t { gas_used = v }))
                        (if_present dec.contract_address
                          (λ v. on (λ t. record t { contract_address = v })) r6)
                        (λ r7. (fill_optional dec r7, none))))))

  unfoldable pub unmarshal_json :
      JsonCodec E Log → BesuReceipt Log → Bytes → BesuReceipt Log × Option (JsonError E)
  unfolding fill
  unmarshal_json codec r input = elim (codec.unmarshal input) [
    | err e ↦ (r, some (json e))
    | ok dec ↦ fill dec r
  ]

  unfoldable pub marshal_json : JsonCodec E Log → BesuReceipt Log → Try E Bytes
  unfolding encode
  marshal_json codec r = codec.marshal (encode r)
