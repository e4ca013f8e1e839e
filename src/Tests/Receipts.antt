-- ===== src/Tests/Receipts.antt =====
-- pkg/client: receipts, waiting for one and transaction options, at concrete packages.
use yui_ibc_solidity.Prelude.{
  ℕ, zero, suc, ◌+◌, ◌≡◌, refl, List, [], ◌∷◌, Option, none, some, ◌==◌, if◌then◌else◌,
}
use yui_ibc_solidity.Prelude.Try.{Try, ok, err}
use yui_ibc_solidity.Client.Receipt.{EthReceipt, BesuReceipt, not_found, besu_transaction_receipt}
use yui_ibc_solidity.Client.Receipt.Json.{Encoded, Decoded, JsonCodec, marshal_json, unmarshal_json}
use yui_ibc_solidity.Client.Receipt.JsonLaws.{
  first_missing, required_fields, missing_error, all_present, IsReadBack,
  unmarshal_json-first_missing, unmarshal_json-marshal_json,
}
use yui_ibc_solidity.Client.Wait.{
  Action, Attempts, success, again, given_up, IsWaited, first_receipt, wait_for_receipt_and_get,
  wait_for_receipt_and_get-first,
}
use yui_ibc_solidity.Client.TxOpts.{Signing, not_authorized, make_gen_tx_opts}

abbrev fields : Option (List ℕ) → Option ℕ → EthReceipt ℕ
fields logs number = record {
  post_state = [];
  status = 1;
  cumulative_gas_used = 21;
  bloom = [];
  logs = logs;
  tx_hash = 7 ∷ [];
  contract_address = [];
  gas_used = 20;
  block_hash = 8 ∷ [];
  block_number = number;
  transaction_index = 2;
}

abbrev stored : Option (List ℕ) → BesuReceipt ℕ
stored logs = record { receipt = fields logs (some 5); reason = []; spare = [] }

abbrev new_receipt : BesuReceipt ℕ
new_receipt = record { receipt = fields none none; reason = 1 ∷ []; spare = 2 ∷ [] }

abbrev encoded : Option (List ℕ) → Encoded ℕ
encoded logs = record {
  root = [];
  status = 1;
  cumulative_gas_used = 21;
  logs_bloom = [];
  logs = logs;
  transaction_hash = 7 ∷ [];
  contract_address = [];
  gas_used = 20;
  block_hash = 8 ∷ [];
  block_number = some 5;
  transaction_index = 2;
  revert_reason = [];
}

-- A package json that knows one receipt.
abbrev codec : Option (List ℕ) → JsonCodec ℕ ℕ
codec logs = record {
  marshal = λ enc. ok (enc.status ∷ []);
  unmarshal = λ bz. ok (all_present (encoded logs) (9 ∷ []));
}

written : (logs : Option (List ℕ)) → IsReadBack (codec logs) (stored logs) (1 ∷ []) (9 ∷ [])
unfolding marshal_json
written logs = (refl, refl)

unmarshal_json-marshal_json_example :
    unmarshal_json (codec (some (3 ∷ []))) new_receipt (1 ∷ [])
    ≡ (record (stored (some (3 ∷ []))) { spare = 9 ∷ [] }, none)
unmarshal_json-marshal_json_example =
    unmarshal_json-marshal_json (codec (some (3 ∷ []))) (stored (some (3 ∷ []))) new_receipt
      (3 ∷ []) (1 ∷ []) (9 ∷ []) (written (some (3 ∷ []))) refl refl

-- Two required fields are missing: the first is reported.
abbrev partial : Decoded ℕ
partial = record (all_present (encoded none) []) { gas_used = none }

unmarshal_json-first_missing_example :
    (unmarshal_json {E = ℕ}
      (record { marshal = λ enc. ok []; unmarshal = λ bz. ok partial })
      new_receipt
      []).1
    ≡ missing_error (first_missing (required_fields partial))
unmarshal_json-first_missing_example =
    unmarshal_json-first_missing (record { marshal = λ enc. ok []; unmarshal = λ bz. ok partial })
      new_receipt [] partial refl

besu_null_test :
    besu_transaction_receipt {E = ℕ} {Log = ℕ} (λ name hash. ok none) [] ≡ err not_found
unfolding besu_transaction_receipt
besu_null_test = refl

-- A node that is ready from its second read on; a world is the number of reads made.
abbrev read : ℕ → Try ℕ ℕ × ℕ
read n = if n == 1 then (ok 42, suc n) else (err 0, suc n)

-- Attempts on a state, up to the first that succeeds.
abbrev retry_after :
    {S : Type 0} → Try ℕ (Unit {0}) × S → (S → Try ℕ (Unit {0}) × S) → Try ℕ (Unit {0}) × S
retry_after (ok _, s) again_from = (ok tt, s)
retry_after (err e, s) again_from = again_from s

abbrev retry_do : {S : Type 0} → Action S ℕ → ℕ → S → Try ℕ (Unit {0}) × S
retry_do f zero s = (err 0, s)
retry_do f (suc n) s = retry_after (f s) (retry_do f n)

retry_after-Attempts :
    {S : Type 0} (f : Action S ℕ) (n : ℕ) (s : S) (a : Try ℕ (Unit {0}) × S)
    → f s ≡ a
    → ((t : S) → Attempts f n t (retry_do f n t))
    → Attempts f (suc n) s (retry_after a (retry_do f n))
retry_after-Attempts f n s (ok _, t) e h = success e
retry_after-Attempts f n s (err x, t) e h = again e (h t)

retry_do-Attempts : {S : Type 0} (f : Action S ℕ) (n : ℕ) (s : S) → Attempts f n s (retry_do f n s)
retry_do-Attempts f zero s = given_up 0
retry_do-Attempts f (suc n) s = retry_after-Attempts f n s _ refl (retry_do-Attempts f n)

wait_for_receipt_and_get-first_example :
    IsWaited (first_receipt 10 read 0) (wait_for_receipt_and_get retry_do read 0)
wait_for_receipt_and_get-first_example =
    wait_for_receipt_and_get-first retry_do read 0 retry_do-Attempts

abbrev signing : Signing ℕ ℕ ℕ
signing = record {
  pubkey_to_address = λ key. key + 1;
  hash = λ chain tx. chain ∷ tx ∷ [];
  sign = λ hash key. ok (key ∷ hash);
  with_signature = λ chain tx signature. ok (tx + chain);
}

-- The options sign for their own account, 8, and not for another.
own_account : (make_gen_tx_opts signing 5 7).signer 8 3 ≡ ok 8
unfolding make_gen_tx_opts
own_account = refl

other_account : (make_gen_tx_opts signing 5 7).signer 9 3 ≡ err not_authorized
unfolding make_gen_tx_opts
other_account = refl
