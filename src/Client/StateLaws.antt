-- ===== src/Client/StateLaws.antt =====
-- pkg/client: what a contract state contains when `GetContractState` returns one.
use yui_ibc_solidity.Prelude.{ℕ, ◌≡◌, sym, ap, ◌∙◌, Bytes, List, Option}
use yui_ibc_solidity.Prelude.Try.{Try, ok, err, >>=-eq_ok}
use yui_ibc_solidity.Chains.Header.{ParsedHeader, Rlp, parse_header, get_sealing_header_bytes}
use yui_ibc_solidity.Chains.Seals.{Crypto, SealError, validate_and_get_commit_seals}
use yui_ibc_solidity.Chains.Certificate.{Certificate, validate_and_get_commit_seals-Certificate}
use yui_ibc_solidity.Client.Proof.{EthProof, ClientError, or_failed, Node, get_eth_proof}
use yui_ibc_solidity.Client.ProofLaws.{ok_inj, from_failed, Reencoded, get_eth_proof-Reencoded}
use yui_ibc_solidity.Client.State.{
  ContractState, ibft2, client_result, seals_result, besu_ibft2_client, Blocks,
  get_ibft2_contract_state, get_contract_state,
}

from_client : {E A : Type 0} (r : Try (ClientError E) A) {a : A} → client_result r ≡ ok a → r ≡ ok a
from_client (ok a) h = ap ok (ok_inj h)
from_client (err e) h = cc

from_seals : {E A : Type 0} (r : Try (SealError E) A) {a : A} → seals_result r ≡ ok a → r ≡ ok a
from_seals (ok a) h = ap ok (ok_inj h)
from_seals (err e) h = cc

-- How a header's extra data is read: a list of the vanity, the validators, the vote, the round and the seals, and no more.
pub record IsParsed {E Header Vote Stream : Type 0} (rlp : Rlp E Header Vote Stream) (h : Header)
    (parsed : ParsedHeader Header Vote) : Type 0 where
  pub s0 : Stream
  pub s1 : Stream
  pub s2 : Stream
  pub s3 : Stream
  pub s4 : Stream
  pub s5 : Stream
  pub s6 : Stream
  pub opened : rlp.list (rlp.new_stream (rlp.extra h)) ≡ ok s0
  pub vanity : rlp.decode_array 32 s0 ≡ ok (parsed.vanity, s1)
  pub validators : rlp.decode_addresses s1 ≡ ok (parsed.validators, s2)
  pub vote : rlp.decode_vote s2 ≡ ok (parsed.vote, s3)
  pub round : rlp.decode_array 4 s3 ≡ ok (parsed.round, s4)
  pub seals : rlp.decode_seals s4 ≡ ok (parsed.seals, s5)
  pub closed : rlp.list_end s5 ≡ ok s6
  pub same_header : parsed.base ≡ h

module _ {E Header Vote Stream : Type 0} (rlp : Rlp E Header Vote Stream) where
  parse_header-IsParsed :
      (h : Header) {parsed : ParsedHeader Header Vote}
      → parse_header rlp h ≡ ok parsed
      → IsParsed rlp h parsed
  unfolding parse_header
  parse_header-IsParsed h e =
      let (s0, e0, h0) = >>=-eq_ok (rlp.list (rlp.new_stream (rlp.extra h))) _ e in
      let (x1, e1, h1) = >>=-eq_ok (rlp.decode_array 32 s0) _ h0 in
      let (x2, e2, h2) = >>=-eq_ok (rlp.decode_addresses (x1.1)) _ h1 in
      let (x3, e3, h3) = >>=-eq_ok (rlp.decode_vote (x2.1)) _ h2 in
      let (x4, e4, h4) = >>=-eq_ok (rlp.decode_array 4 (x3.1)) _ h3 in
      let (x5, e5, h5) = >>=-eq_ok (rlp.decode_seals (x4.1)) _ h4 in
      let (s6, e6, h6) = >>=-eq_ok (rlp.list_end (x5.1)) _ h5 in
      let same = ok_inj h6 in
      record {
        s0 = s0;
        s1 = x1.1;
        s2 = x2.1;
        s3 = x3.1;
        s4 = x4.1;
        s5 = x5.1;
        s6 = s6;
        opened = e0;
        vanity = e1 ∙ ap (λ q. ok (q.vanity, x1.1)) same;
        validators = e2 ∙ ap (λ q. ok (q.validators, x2.1)) same;
        vote = e3 ∙ ap (λ q. ok (q.vote, x3.1)) same;
        round = e4 ∙ ap (λ q. ok (q.round, x4.1)) same;
        seals = e5 ∙ ap (λ q. ok (q.seals, x5.1)) same;
        closed = e6;
        same_header = ap (λ q. q.base) (sym same);
      }

-- A state of an IBFT 2.0 chain at a block: its header is the block's, its proof is of the storage at the block's number, and
-- its seals certify the header.
pub record Sealed {E Hash Header Vote Stream PublicKey Block : Type 0} (node : Node E Hash)
    (blocks : Blocks E Header Block) (rlp : Rlp E Header Vote Stream) (crypto : Crypto E PublicKey)
    (address : Bytes) (storage_keys : List Bytes) (bn : Option ℕ)
    (state : ContractState Header Vote) : Type 0 where
  pub block : Block
  pub parsed : ParsedHeader Header Vote
  pub proof : EthProof
  pub seals : List (Option Bytes)
  pub sealing : Bytes
  pub is_ibft2 : state ≡ ibft2 parsed proof seals
  pub of_block : blocks.block_by_number bn ≡ ok block
  pub is_parsed : IsParsed rlp (blocks.block_header block) parsed
  pub proof_at : Reencoded node address storage_keys (blocks.block_number block) proof
  pub sealing_bytes : get_sealing_header_bytes rlp parsed ≡ ok sealing
  pub certificate :
      Certificate crypto (crypto.keccak256 sealing) parsed.seals parsed.validators seals

module _ {E Hash Header Vote Stream PublicKey Block : Type 0} (node : Node E Hash)
    (blocks : Blocks E Header Block) (rlp : Rlp E Header Vote Stream)
    (crypto : Crypto E PublicKey) where
  ibft2-Sealed :
      (address : Bytes) (storage_keys : List Bytes) (bn : Option ℕ)
      {state : ContractState Header Vote}
      → get_ibft2_contract_state node blocks rlp crypto address storage_keys bn ≡ ok state
      → Sealed node blocks rlp crypto address storage_keys bn state
  unfolding get_ibft2_contract_state
  ibft2-Sealed address storage_keys bn e =
      let (block, e0, h0) = >>=-eq_ok (client_result (or_failed (blocks.block_by_number bn))) _ e in
      let (proof, e1, h1) =
        >>=-eq_ok
          (client_result (get_eth_proof node address storage_keys (blocks.block_number block))) _
          h0 in
      let (parsed, e2, h2) =
        >>=-eq_ok (client_result (or_failed (parse_header rlp (blocks.block_header block)))) _ h1 in
      let (seals, e3, h3) =
        >>=-eq_ok (seals_result (validate_and_get_commit_seals crypto rlp parsed)) _ h2 in
      let (sealing, e4, certified) =
        validate_and_get_commit_seals-Certificate crypto rlp parsed (from_seals _ e3) in
      record {
        block = block;
        parsed = parsed;
        proof = proof;
        seals = seals;
        sealing = sealing;
        is_ibft2 = sym (ok_inj h3);
        of_block = from_failed _ (from_client _ e0);
        is_parsed = parse_header-IsParsed rlp _ (from_failed _ (from_client _ e2));
        proof_at =
            get_eth_proof-Reencoded node address storage_keys (blocks.block_number block)
              (from_client _ e1);
        sealing_bytes = e4;
        certificate = certified;
      }

  -- A state that `GetContractState` returns to a client of an IBFT 2.0 chain is that of the block that was asked for: its
  -- vanity, validators, vote, round and seals are read in this order from the extra data of that block's header, its proofs
  -- are what the node answers for the address and all storage keys at that block's number, re-encoded, and its commit seals
  -- certify that block's header: more than two thirds of the validators signed it.
  pub get_contract_state-Sealed :
      (address : Bytes) (storage_keys : List Bytes) (bn : Option ℕ)
      {state : ContractState Header Vote}
      → get_contract_state node blocks rlp crypto besu_ibft2_client address storage_keys bn
        ≡ ok state
      → Sealed node blocks rlp crypto address storage_keys bn state
  unfolding get_contract_state
  get_contract_state-Sealed address storage_keys bn e = ibft2-Sealed address storage_keys bn e
