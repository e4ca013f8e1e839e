-- ===== src/Relay/UpdateClientLaws.antt =====
-- pkg/testing/chains.go: the header in a relayer's update message is the sealed header of the counterparty's block.
use yui_ibc_solidity.Prelude.{ℕ, ◌≡◌, refl, Bytes, List, Bool, Option, map}
use yui_ibc_solidity.Prelude.Try.{Try, ok}
use yui_ibc_solidity.Ibft2.Header as HeaderCodec
use yui_ibc_solidity.Ibft2.ClientState.{ClientState}
use yui_ibc_solidity.Chains.Header.{ParsedHeader, Rlp, get_sealing_header_bytes}
use yui_ibc_solidity.Client.Proof.{EthProof}
use yui_ibc_solidity.Client.State.{ibft2}
use yui_ibc_solidity.Relay.Any.{AnyCodec, unmarshal_with_any}
use yui_ibc_solidity.Relay.AnyLaws.{IsFaithful, unmarshal_with_any-marshal_with_any}
use yui_ibc_solidity.Relay.UpdateClient.{
  header_message, or_empty, MsgUpdateClient, get_ibft2_client_state,
  construct_ibft2_msg_update_client,
}

-- The header that an update carries.
abbrev pub update_header : Bytes → List (Option Bytes) → ℕ → Bytes → HeaderCodec.Header
update_header sealing seals trusted_height account_proof = record {
  besu_header_rlp = sealing;
  seals = map or_empty seals;
  trusted_height = trusted_height;
  account_state_proof = account_proof;
}

module _ {E Header Vote Stream : Type 0} (codec : AnyCodec E) (faithful : IsFaithful codec)
    (rlp : Rlp E Header Vote Stream) (get_client_state : Bytes → Try E (Bytes × Bool)) where
  -- With a faithful codec of Any, a readable client state, sealing bytes and a header that fits, the update message of an IBFT 2.0 state is built without
  -- a panic; it names the client, and its header unwraps to the sealing bytes, the commit seals, the trusted height of the
  -- client and the account proof.
  pub construct_ibft2_msg_update_client-header :
      (parsed : ParsedHeader Header Vote) (proof : EthProof) (seals : List (Option Bytes))
      (client_id : Bytes) (trusted : ClientState) (sealing : Bytes)
      → get_ibft2_client_state codec rlp get_client_state client_id ≡ ok trusted
      → get_sealing_header_bytes rlp parsed ≡ ok sealing
      → header_message.Fits
          (update_header sealing seals trusted.latest_height proof.account_proof_rlp)
      → (msg : MsgUpdateClient) × (construct_ibft2_msg_update_client codec rlp get_client_state
            (ibft2 parsed proof seals)
            client_id
          ≡ ok msg)
        × (msg.client_id ≡ client_id)
        × (unmarshal_with_any codec header_message msg.header
            ≡ ok (update_header sealing seals trusted.latest_height proof.account_proof_rlp))
  unfolding construct_ibft2_msg_update_client
  construct_ibft2_msg_update_client-header parsed proof seals client_id trusted sealing e1 e2 fits =
      let header = update_header sealing seals trusted.latest_height proof.account_proof_rlp in
      let (bs, e3, e4) =
        unmarshal_with_any-marshal_with_any codec faithful header_message header fits in
      (record { client_id = client_id; header = bs }, rw (e1, e2, e3) refl, refl, e4)
