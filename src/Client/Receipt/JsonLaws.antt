-- ===== src/Client/Receipt/JsonLaws.antt =====
-- pkg/client/besu.go: the laws of the JSON form of a receipt.
use yui_ibc_solidity.Prelude.{
  ℕ, ◌≡◌, refl, sym, ap, ◌∙◌, Bytes, List, [], ◌∷◌, Option, none, some, codes,
}
use yui_ibc_solidity.Prelude.Try.{ok}
use yui_ibc_solidity.Client.Receipt.{BesuReceipt}
use yui_ibc_solidity.Client.Receipt.Json.{
  Encoded, Decoded, JsonError, missing_required_field, JsonCodec, required, fill_optional, fill,
  unmarshal_json, encode, marshal_json,
}

-- The first name of the list whose field is nil.
abbrev pub present : {A : Type 0} → Option A → Option (Unit {0})
present none = none
present (some a) = some tt

abbrev pub first_missing : List (Option (Unit {0}) × Bytes) → Option Bytes
first_missing [] = none
first_missing ((none, name) ∷ fields) = some name
first_missing ((some _, name) ∷ fields) = first_missing fields

-- The required fields, in the order in which a missing one is reported.
abbrev pub required_fields : {Log : Type 0} → Decoded Log → List (Option (Unit {0}) × Bytes)
required_fields dec =
    (present dec.cumulative_gas_used, codes "cumulativeGasUsed")
    ∷ (present dec.logs_bloom, codes "logsBloom")
    ∷ (present dec.logs, codes "logs")
    ∷ (present dec.transaction_hash, codes "transactionHash")
    ∷ (present dec.gas_used, codes "gasUsed")
    ∷ []

abbrev pub missing_error : {E : Type 0} → Option Bytes → Option (JsonError E)
missing_error none = none
missing_error (some name) = some (missing_required_field name)

required-first_missing :
    {E A R : Type 0} (o : Option A) (name : Bytes) (set : A → R → R) (r : R)
    (rest : R → R × Option (JsonError E)) (fields : List (Option (Unit {0}) × Bytes))
    → ((t : R) → (rest t).1 ≡ missing_error (first_missing fields))
    → (required o name set r rest).1 ≡ missing_error (first_missing ((present o, name) ∷ fields))
unfolding required
required-first_missing none name set r rest fields h = refl
required-first_missing (some a) name set r rest fields h = h (set a r)

module _ {E Log : Type 0} where
  fill-first_missing :
      (dec : Decoded Log) (r : BesuReceipt Log)
      → (fill {E = E} dec r).1 ≡ missing_error (first_missing (required_fields dec))
  unfolding fill
  fill-first_missing dec r = required-first_missing dec.cumulative_gas_used _ _ _ _ _ (λ _.
      required-first_missing dec.logs_bloom _ _ _ _ _ (λ _.
        required-first_missing dec.logs _ _ _ _ _ (λ _.
          required-first_missing dec.transaction_hash _ _ _ _ _
            (λ _. required-first_missing dec.gas_used _ _ _ _ [] (λ _. refl)))))

  -- The error of UnmarshalJSON, once json has decoded its struct, names the first required field that is nil, in the order
  -- cumulativeGasUsed, logsBloom, logs, transactionHash, gasUsed; there is no error where none of them is nil.
  pub unmarshal_json-first_missing :
      (codec : JsonCodec E Log) (r : BesuReceipt Log) (input : Bytes) (dec : Decoded Log)
      → codec.unmarshal input ≡ ok dec
      → (unmarshal_json codec r input).1 ≡ missing_error (first_missing (required_fields dec))
  unfolding unmarshal_json
  unmarshal_json-first_missing codec r input dec e =
      rw (e, unmarshal_json) (fill-first_missing dec r)

-- What json decodes from what it encoded: every field is there, but for logs and a block number that were nil.
abbrev pub all_present : {Log : Type 0} → Encoded Log → Bytes → Decoded Log
all_present enc spare = record {
  root = some enc.root;
  status = some enc.status;
  cumulative_gas_used = some enc.cumulative_gas_used;
  logs_bloom = some enc.logs_bloom;
  logs = enc.logs;
  transaction_hash = some enc.transaction_hash;
  contract_address = some enc.contract_address;
  gas_used = some enc.gas_used;
  block_hash = some enc.block_hash;
  block_number = enc.block_number;
  transaction_index = some enc.transaction_index;
  revert_reason = some (enc.revert_reason, spare);
}

-- The package json wrote these bytes for a receipt, and reads them back; the spare bytes of the decoded slice may be any.
abbrev pub IsReadBack :
    {E Log : Type 0} → JsonCodec E Log → BesuReceipt Log → Bytes → Bytes → Type 0
IsReadBack codec r bz spare =
    (marshal_json codec r ≡ ok bz) × (codec.unmarshal bz ≡ ok (all_present (encode r) spare))

module _ {Log : Type 0} where
  abbrev with_logs : BesuReceipt Log → Option (List Log) → Option ℕ → BesuReceipt Log
  with_logs r logs number = record r {
    receipt = record r.receipt { logs = logs; block_number = number };
  }

  abbrev without_number : BesuReceipt Log → Option ℕ → BesuReceipt Log
  without_number r number = record r { receipt = record r.receipt { block_number = number } }

module _ {E Log : Type 0} where
  fill-with_logs :
      (r r0 : BesuReceipt Log) (logs : List Log) (number : Option ℕ) (spare : Bytes)
      → fill {E = E}
          (all_present (encode (with_logs r (some logs) number)) spare)
          (without_number r0 none)
        ≡ (record (with_logs r (some logs) number) { spare = spare }, none)
  unfolding fill required fill_optional encode
  fill-with_logs r r0 logs none spare = refl
  fill-with_logs r r0 logs (some n) spare = refl

  fill-encode :
      (r r0 : BesuReceipt Log) (logs : List Log) (spare : Bytes)
      → r.receipt.logs ≡ some logs
      → r0.receipt.block_number ≡ none
      → fill {E = E} (all_present (encode r) spare) r0 ≡ (record r { spare = spare }, none)
  fill-encode r r0 logs spare l n =
      let whole = ap (λ o. with_logs r o r.receipt.block_number) l in
      ap (λ t. fill (all_present (encode t) spare) r0) whole
      ∙ ap
          (λ o.
            fill (all_present (encode (with_logs r (some logs) r.receipt.block_number)) spare)
              (without_number r0 o))
          n
      ∙ fill-with_logs r r0 logs r.receipt.block_number spare
      ∙ ap (λ t. (record t { spare = spare }, none)) (sym whole)

  -- Where json reads back what MarshalJSON of a receipt wrote, UnmarshalJSON has no error and restores every field, up to spare
  -- bytes, into a receipt that has no block number before. The logs must not be nil.
  pub unmarshal_json-marshal_json :
      (codec : JsonCodec E Log) (r r0 : BesuReceipt Log) (logs : List Log) (bz spare : Bytes)
      → IsReadBack codec r bz spare
      → r.receipt.logs ≡ some logs
      → r0.receipt.block_number ≡ none
      → unmarshal_json codec r0 bz ≡ (record r { spare = spare }, none)
  unfolding unmarshal_json
  unmarshal_json-marshal_json codec r r0 logs bz spare faithful l n =
      rw (faithful.1, unmarshal_json) (fill-encode r r0 logs spare l n)

  -- A receipt whose logs are nil: where json reads back what MarshalJSON wrote, UnmarshalJSON refuses it, since logs is missing.
  pub unmarshal_json-nil_logs :
      (codec : JsonCodec E Log) (r r0 : BesuReceipt Log) (bz spare : Bytes)
      → IsReadBack codec r bz spare
      → r.receipt.logs ≡ none
      → (unmarshal_json codec r0 bz).1 ≡ some (missing_required_field (codes "logs"))
  unfolding encode
  unmarshal_json-nil_logs codec r r0 bz spare faithful l =
      unmarshal_json-first_missing codec r0 bz _ faithful.1
      ∙ ap
          (λ o.
            missing_error
              (first_missing (required_fields (all_present (encode (with_logs r o none)) spare))))
          l
