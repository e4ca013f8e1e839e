-- ===== src/Contract/Ibchost/Caller.antt =====
-- pkg/contract/ibchost/ibchost.go: the read methods.
use yui_ibc_solidity.Prelude.{ℕ, Bytes, [], ◌∷◌, Bool, codes}
use yui_ibc_solidity.Prelude.Try.{Try, ok, ◌>>=◌}
use yui_ibc_solidity.Contract.Bound.{Basic, BoundContract, CallError, called, output}
use yui_ibc_solidity.Contract.Ibchost.Structs.{Structs, PacketData, ChannelData, ConnectionEndData}

module _ {E Value CallOpts TransactOpts Tx : Type 0} (basic : Basic Value) (structs : Structs Value)
    (contract : BoundContract E Value CallOpts TransactOpts Tx) where
  unfoldable pub authenticate_capability : CallOpts → Bytes → ℕ → Try (CallError E) Bool
  unfolding output
  authenticate_capability opts name addr = do
    out ← called (
        contract.call opts (codes "authenticateCapability")
          (basic.bytes.box name ∷ basic.address.box addr ∷ []))
    out0 ← output out 0 basic.bool
    ok out0

  unfoldable pub get_channel : CallOpts → Bytes → Bytes → Try (CallError E) (ChannelData × Bool)
  unfolding output
  get_channel opts port_id channel_id = do
    out ← called (
        contract.call opts (codes "getChannel")
          (basic.string.box port_id ∷ basic.string.box channel_id ∷ []))
    out0 ← output out 0 structs.channel_data
    out1 ← output out 1 basic.bool
    ok (out0, out1)

  unfoldable pub get_client_impl : CallOpts → Bytes → Try (CallError E) (ℕ × Bool)
  unfolding output
  get_client_impl opts client_type = do
    out ← called (contract.call opts (codes "getClientImpl") (basic.string.box client_type ∷ []))
    out0 ← output out 0 basic.address
    out1 ← output out 1 basic.bool
    ok (out0, out1)

  unfoldable pub get_client_state : CallOpts → Bytes → Try (CallError E) (Bytes × Bool)
  unfolding output
  get_client_state opts client_id = do
    out ← called (contract.call opts (codes "getClientState") (basic.string.box client_id ∷ []))
    out0 ← output out 0 basic.bytes
    out1 ← output out 1 basic.bool
    ok (out0, out1)

  unfoldable pub get_client_type : CallOpts → Bytes → Try (CallError E) Bytes
  unfolding output
  get_client_type opts client_id = do
    out ← called (contract.call opts (codes "getClientType") (basic.string.box client_id ∷ []))
    out0 ← output out 0 basic.string
    ok out0

  unfoldable pub get_connection : CallOpts → Bytes → Try (CallError E) (ConnectionEndData × Bool)
  unfolding output
  get_connection opts connection_id = do
    out ← called (contract.call opts (codes "getConnection") (basic.string.box connection_id ∷ []))
    out0 ← output out 0 structs.connection_end_data
    out1 ← output out 1 basic.bool
    ok (out0, out1)

  unfoldable pub get_consensus_state : CallOpts → Bytes → ℕ → Try (CallError E) (Bytes × Bool)
  unfolding output
  get_consensus_state opts client_id height = do
    out ← called (
        contract.call opts (codes "getConsensusState")
          (basic.string.box client_id ∷ basic.uint64.box height ∷ []))
    out0 ← output out 0 basic.bytes
    out1 ← output out 1 basic.bool
    ok (out0, out1)

  unfoldable pub get_module_owner : CallOpts → Bytes → Try (CallError E) (ℕ × Bool)
  unfolding output
  get_module_owner opts name = do
    out ← called (contract.call opts (codes "getModuleOwner") (basic.bytes.box name ∷ []))
    out0 ← output out 0 basic.address
    out1 ← output out 1 basic.bool
    ok (out0, out1)

  unfoldable pub get_next_sequence_ack : CallOpts → Bytes → Bytes → Try (CallError E) ℕ
  unfolding output
  get_next_sequence_ack opts port_id channel_id = do
    out ← called (
        contract.call opts (codes "getNextSequenceAck")
          (basic.string.box port_id ∷ basic.string.box channel_id ∷ []))
    out0 ← output out 0 basic.uint64
    ok out0

  unfoldable pub get_next_sequence_recv : CallOpts → Bytes → Bytes → Try (CallError E) ℕ
  unfolding output
  get_next_sequence_recv opts port_id channel_id = do
    out ← called (
        contract.call opts (codes "getNextSequenceRecv")
          (basic.string.box port_id ∷ basic.string.box channel_id ∷ []))
    out0 ← output out 0 basic.uint64
    ok out0

  unfoldable pub get_next_sequence_send : CallOpts → Bytes → Bytes → Try (CallError E) ℕ
  unfolding output
  get_next_sequence_send opts port_id channel_id = do
    out ← called (
        contract.call opts (codes "getNextSequenceSend")
          (basic.string.box port_id ∷ basic.string.box channel_id ∷ []))
    out0 ← output out 0 basic.uint64
    ok out0

  unfoldable pub get_packet_acknowledgement_commitment :
      CallOpts → Bytes → Bytes → ℕ → Try (CallError E) (Bytes × Bool)
  unfolding output
  get_packet_acknowledgement_commitment opts port_id channel_id sequence = do
    out ← called (
        contract.call opts (codes "getPacketAcknowledgementCommitment")
          (basic.string.box port_id ∷ basic.string.box channel_id ∷ basic.uint64.box sequence ∷ []))
    out0 ← output out 0 basic.bytes32
    out1 ← output out 1 basic.bool
    ok (out0, out1)

  unfoldable pub get_packet_commitment :
      CallOpts → Bytes → Bytes → ℕ → Try (CallError E) (Bytes × Bool)
  unfolding output
  get_packet_commitment opts port_id channel_id sequence = do
    out ← called (
        contract.call opts (codes "getPacketCommitment")
          (basic.string.box port_id ∷ basic.string.box channel_id ∷ basic.uint64.box sequence ∷ []))
    out0 ← output out 0 basic.bytes32
    out1 ← output out 1 basic.bool
    ok (out0, out1)

  unfoldable pub has_packet_receipt : CallOpts → Bytes → Bytes → ℕ → Try (CallError E) Bool
  unfolding output
  has_packet_receipt opts port_id channel_id sequence = do
    out ← called (
        contract.call opts (codes "hasPacketReceipt")
          (basic.string.box port_id ∷ basic.string.box channel_id ∷ basic.uint64.box sequence ∷ []))
    out0 ← output out 0 basic.bool
    ok out0

  unfoldable pub make_packet_acknowledgement_commitment : CallOpts → Bytes → Try (CallError E) Bytes
  unfolding output
  make_packet_acknowledgement_commitment opts acknowledgement = do
    out ← called (
        contract.call opts (codes "makePacketAcknowledgementCommitment")
          (basic.bytes.box acknowledgement ∷ []))
    out0 ← output out 0 basic.bytes32
    ok out0

  unfoldable pub make_packet_commitment : CallOpts → PacketData → Try (CallError E) Bytes
  unfolding output
  make_packet_commitment opts packet = do
    out ←
        called
          (contract.call opts (codes "makePacketCommitment") (structs.packet_data.box packet ∷ []))
    out0 ← output out 0 basic.bytes32
    ok out0

  unfoldable pub only_ibc_module : CallOpts → Try (CallError E) (Unit {0})
  only_ibc_module opts = do _ ← called (contract.call opts (codes "onlyIBCModule") []); ok tt
