-- ===== src/Client/State.antt =====
-- pkg/client/contract.go: `GetContractState` and the two kinds of contract state. A nil storage proof is the empty string.
use yui_ibc_solidity.Prelude.{
  ℕ, Bytes, List, [], map, if◌then◌else◌, same_string, Option, length, replicate, codes,
}
use yui_ibc_solidity.Prelude.Try.{Try, ok, err, ◌>>=◌}
use yui_ibc_solidity.Chains.Header.{
  Address, ParsedHeader, Rlp, parse_header, get_chain_header_bytes,
}
use yui_ibc_solidity.Chains.Seals.{Crypto, SealError, validate_and_get_commit_seals}
use yui_ibc_solidity.Client.Proof.{
  EthProof, ClientError, panic, or_failed, or_panic, Node, get_eth_proof,
}

-- `ETHContractState` and `IBFT2ContractState`.
pub data ContractState (Header Vote : Type 0) : Type 0 where
  eth : Header → EthProof → ContractState Header Vote
  ibft2 : ParsedHeader Header Vote → EthProof → List (Option Bytes) → ContractState Header Vote

-- `Header()` and `ETHProof()` of both.
unfoldable pub header : {Header Vote : Type 0} → ContractState Header Vote → Header
header (eth h proof) = h
header (ibft2 parsed proof seals) = parsed.base

unfoldable pub eth_proof : {Header Vote : Type 0} → ContractState Header Vote → EthProof
eth_proof (eth h proof) = proof
eth_proof (ibft2 parsed proof seals) = proof

-- The errors of `GetContractState`: those of the client, and those of the commit seals.
pub data StateError (E : Type 0) : Type 0 where
  client : ClientError E → StateError E
  commit_seals : SealError E → StateError E

abbrev pub client_result : {E A : Type 0} → Try (ClientError E) A → Try (StateError E) A
client_result (ok a) = ok a
client_result (err e) = err (client e)

abbrev pub seals_result : {E A : Type 0} → Try (SealError E) A → Try (StateError E) A
seals_result (ok a) = ok a
seals_result (err e) = err (commit_seals e)

-- The client types of pkg/ibc/client/client.go.
abbrev pub besu_ibft2_client : Bytes
besu_ibft2_client = codes "hyperledger-besu-ibft2"

abbrev pub mock_client : Bytes
mock_client = codes "mock-client"

-- `BlockByNumber`, at a number or the latest, and the header and number of a block.
pub record Blocks (E Header Block : Type 0) : Type 0 where
  pub block_by_number : Option ℕ → Try E Block
  pub block_header : Block → Header
  pub block_number : Block → ℕ

module _ {E Hash Header Vote Stream PublicKey Block : Type 0} (node : Node E Hash)
    (blocks : Blocks E Header Block) (rlp : Rlp E Header Vote Stream)
    (crypto : Crypto E PublicKey) where
  unfoldable pub get_mock_contract_state :
      Bytes → List Bytes → Option ℕ → Try (StateError E) (ContractState Header Vote)
  get_mock_contract_state address storage_keys bn = do
    block ← client_result (or_failed (blocks.block_by_number bn))
    ok (
        eth (blocks.block_header block) (record {
          account_proof_rlp = [];
          storage_proof_rlp = replicate (length storage_keys) [];
        }))

  unfoldable pub get_ibft2_contract_state :
      Bytes → List Bytes → Option ℕ → Try (StateError E) (ContractState Header Vote)
  unfolding get_eth_proof parse_header validate_and_get_commit_seals
  get_ibft2_contract_state address storage_keys bn = do
    block ← client_result (or_failed (blocks.block_by_number bn))
    proof ← client_result (get_eth_proof node address storage_keys (blocks.block_number block))
    parsed ← client_result (or_failed (parse_header rlp (blocks.block_header block)))
    seals ← seals_result (validate_and_get_commit_seals crypto rlp parsed)
    ok (ibft2 parsed proof seals)

  -- The switch on the client's type; any other type panics.
  unfoldable pub get_contract_state :
      Bytes → Bytes → List Bytes → Option ℕ → Try (StateError E) (ContractState Header Vote)
  unfolding get_ibft2_contract_state get_mock_contract_state
  get_contract_state client_type address storage_keys bn =
      if same_string client_type besu_ibft2_client
      then get_ibft2_contract_state address storage_keys bn
      else if same_string client_type mock_client
      then get_mock_contract_state address storage_keys bn
      else err (client panic)

-- The other methods of an IBFT 2.0 state; an error of the encoding is a panic. An address is written as its 20 bytes.
unfoldable pub chain_header_rlp :
    {E Header Vote Stream : Type 0}
    → Rlp E Header Vote Stream
    → ParsedHeader Header Vote
    → Try (ClientError E) Bytes
chain_header_rlp rlp parsed = or_panic (get_chain_header_bytes rlp parsed)

unfoldable pub validators :
    {Header Vote : Type 0} → (Address → Bytes) → ParsedHeader Header Vote → List Bytes
validators address_bytes parsed = map address_bytes parsed.validators
