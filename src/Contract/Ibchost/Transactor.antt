-- ===== src/Contract/Ibchost/Transactor.antt =====
-- pkg/contract/ibchost/ibchost.go: the methods that send a transaction.
use yui_ibc_solidity.Prelude.{ℕ, Bytes, [], ◌∷◌, codes}
use yui_ibc_solidity.Prelude.Try.{Try}
use yui_ibc_solidity.Contract.Bound.{Basic, BoundContract}
use yui_ibc_solidity.Contract.Ibchost.Structs.{Structs, PacketData, ChannelData, ConnectionEndData}

module _ {E Value CallOpts TransactOpts Tx : Type 0} (basic : Basic Value) (structs : Structs Value)
    (contract : BoundContract E Value CallOpts TransactOpts Tx) where
  unfoldable pub claim_capability : TransactOpts → Bytes → ℕ → Try E Tx
  claim_capability opts name addr =
      contract.transact opts (codes "claimCapability")
        (basic.bytes.box name ∷ basic.address.box addr ∷ [])

  unfoldable pub delete_packet_commitment : TransactOpts → Bytes → Bytes → ℕ → Try E Tx
  delete_packet_commitment opts port_id channel_id sequence =
      contract.transact opts (codes "deletePacketCommitment")
        (basic.string.box port_id ∷ basic.string.box channel_id ∷ basic.uint64.box sequence ∷ [])

  unfoldable pub generate_channel_identifier : TransactOpts → Try E Tx
  generate_channel_identifier opts = contract.transact opts (codes "generateChannelIdentifier") []

  unfoldable pub generate_client_identifier : TransactOpts → Bytes → Try E Tx
  generate_client_identifier opts client_type =
      contract.transact opts (codes "generateClientIdentifier") (basic.string.box client_type ∷ [])

  unfoldable pub generate_connection_identifier : TransactOpts → Try E Tx
  generate_connection_identifier opts =
      contract.transact opts (codes "generateConnectionIdentifier") []

  unfoldable pub set_channel : TransactOpts → Bytes → Bytes → ChannelData → Try E Tx
  set_channel opts port_id channel_id channel = contract.transact opts (codes "setChannel") (
      basic.string.box port_id
      ∷ basic.string.box channel_id
      ∷ structs.channel_data.box channel
      ∷ [])

  unfoldable pub set_client_impl : TransactOpts → Bytes → ℕ → Try E Tx
  set_client_impl opts client_type client_impl =
      contract.transact opts (codes "setClientImpl")
        (basic.string.box client_type ∷ basic.address.box client_impl ∷ [])

  unfoldable pub set_client_state : TransactOpts → Bytes → Bytes → Try E Tx
  set_client_state opts client_id client_state_bytes =
      contract.transact opts (codes "setClientState")
        (basic.string.box client_id ∷ basic.bytes.box client_state_bytes ∷ [])

  unfoldable pub set_client_type : TransactOpts → Bytes → Bytes → Try E Tx
  set_client_type opts client_id client_type =
      contract.transact opts (codes "setClientType")
        (basic.string.box client_id ∷ basic.string.box client_type ∷ [])

  unfoldable pub set_connection : TransactOpts → Bytes → ConnectionEndData → Try E Tx
  set_connection opts connection_id connection =
      contract.transact opts (codes "setConnection")
        (basic.string.box connection_id ∷ structs.connection_end_data.box connection ∷ [])

  unfoldable pub set_consensus_state : TransactOpts → Bytes → ℕ → Bytes → Try E Tx
  set_consensus_state opts client_id height consensus_state_bytes =
      contract.transact opts (codes "setConsensusState") (
        basic.string.box client_id
        ∷ basic.uint64.box height
        ∷ basic.bytes.box consensus_state_bytes
        ∷ [])

  unfoldable pub set_ibc_module : TransactOpts → ℕ → Try E Tx
  set_ibc_module opts ibc_module =
      contract.transact opts (codes "setIBCModule") (basic.address.box ibc_module ∷ [])

  unfoldable pub set_next_sequence_ack : TransactOpts → Bytes → Bytes → ℕ → Try E Tx
  set_next_sequence_ack opts port_id channel_id sequence =
      contract.transact opts (codes "setNextSequenceAck")
        (basic.string.box port_id ∷ basic.string.box channel_id ∷ basic.uint64.box sequence ∷ [])

  unfoldable pub set_next_sequence_recv : TransactOpts → Bytes → Bytes → ℕ → Try E Tx
  set_next_sequence_recv opts port_id channel_id sequence =
      contract.transact opts (codes "setNextSequenceRecv")
        (basic.string.box port_id ∷ basic.string.box channel_id ∷ basic.uint64.box sequence ∷ [])

  unfoldable pub set_next_sequence_send : TransactOpts → Bytes → Bytes → ℕ → Try E Tx
  set_next_sequence_send opts port_id channel_id sequence =
      contract.transact opts (codes "setNextSequenceSend")
        (basic.string.box port_id ∷ basic.string.box channel_id ∷ basic.uint64.box sequence ∷ [])

  unfoldable pub set_packet_acknowledgement_commitment :
      TransactOpts → Bytes → Bytes → ℕ → Bytes → Try E Tx
  set_packet_acknowledgement_commitment opts port_id channel_id sequence acknowledgement =
      contract.transact opts (codes "setPacketAcknowledgementCommitment") (
        basic.string.box port_id
        ∷ basic.string.box channel_id
        ∷ basic.uint64.box sequence
        ∷ basic.bytes.box acknowledgement
        ∷ [])

  unfoldable pub set_packet_commitment : TransactOpts → Bytes → Bytes → ℕ → PacketData → Try E Tx
  set_packet_commitment opts port_id channel_id sequence packet =
      contract.transact opts (codes "setPacketCommitment") (
        basic.string.box port_id
        ∷ basic.string.box channel_id
        ∷ basic.uint64.box sequence
        ∷ structs.packet_data.box packet
        ∷ [])

  unfoldable pub set_packet_receipt : TransactOpts → Bytes → Bytes → ℕ → Try E Tx
  set_packet_receipt opts port_id channel_id sequence =
      contract.transact opts (codes "setPacketReceipt")
        (basic.string.box port_id ∷ basic.string.box channel_id ∷ basic.uint64.box sequence ∷ [])
