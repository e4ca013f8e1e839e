-- ===== src/Core/Packet/Acknowledge.antt =====
-- contracts/core/IBCChannel.sol: `writeAcknowledgement` and `acknowledgePacket`.

use yui_ibc_solidity.Prelude.{
  ℕ, ◌+◌, ◌%◌, ◌^◌, Bytes, not, if◌then◌else◌, ◌==◌, ltb, length, same_string, codes,
}
use yui_ibc_solidity.Prelude.Try.{Try, ok, ◌>>=◌}
use yui_ibc_solidity.Contract.Ibchost.Structs.{ConnectionEndData}
use yui_ibc_solidity.Contract.Ibchandler.Structs.{PacketData}
use yui_ibc_solidity.Core.Store.{Store, Chain, require}
use yui_ibc_solidity.Core.Host.{
  only_ibc_module, get_channel, get_connection, get_next_sequence_ack, set_next_sequence_ack,
  make_packet_commitment, get_packet_commitment, delete_packet_commitment,
  get_packet_acknowledgement_commitment, set_packet_acknowledgement_commitment,
}
use yui_ibc_solidity.Core.Clients.{LightClients, verify_packet_acknowledgement}
use yui_ibc_solidity.Core.Packet.{
  state_open, order_ordered, not_next, MsgPacketAcknowledgement, first_hop,
}

module _ (chain : Chain) (clients : LightClients) where
  -- The checks of writeAcknowledgement.
  unfoldable pub write_check : Store → Bytes → Bytes → ℕ → Bytes → Try Bytes (Unit {0})
  unfolding only_ibc_module require get_channel get_packet_acknowledgement_commitment
  write_check s destination_port_id destination_channel sequence acknowledgement = do
    _ ← only_ibc_module chain s
    (channel, found) ← ok (get_channel s destination_port_id destination_channel)
    _ ← require found (codes "channel not found")
    _ ← require (channel.state == state_open) (codes "channel state must be OPEN")
    (ack_hash, found) ← ok (
        get_packet_acknowledgement_commitment chain s destination_port_id destination_channel
          sequence)
    _ ← require (not found) (codes "acknowledgement for packet already exists")
    require (ltb 0 (length acknowledgement)) (codes "acknowledgement cannot be empty")

  unfoldable pub write_acknowledgement : Store → Bytes → Bytes → ℕ → Bytes → Try Bytes Store
  unfolding write_check set_packet_acknowledgement_commitment
  write_acknowledgement s destination_port_id destination_channel sequence acknowledgement = do
    _ ← write_check s destination_port_id destination_channel sequence acknowledgement
    set_packet_acknowledgement_commitment chain s destination_port_id destination_channel sequence
        acknowledgement

  -- The checks of acknowledgePacket on the channel, and its connection.
  unfoldable pub acknowledge_connection : Store → PacketData → Try Bytes ConnectionEndData
  unfolding only_ibc_module require get_channel get_connection first_hop
  acknowledge_connection s packet = do
    _ ← only_ibc_module chain s
    (channel, found) ← ok (get_channel s packet.source_port packet.source_channel)
    _ ← require found (codes "channel not found")
    _ ← require (channel.state == state_open) (codes "channel state must be OPEN")
    _ ←
        require (chain.equals packet.destination_port channel.counterparty.port_id)
          (codes "packet destination port doesn't match the counterparty's port")
    _ ←
        require (chain.equals packet.destination_channel channel.counterparty.channel_id)
          (codes "packet destination channel doesn't match the counterparty's channel")
    hop ← first_hop channel.connection_hops
    (connection, found) ← ok (get_connection s hop)
    _ ← require found (codes "connection not found")
    _ ← require (connection.state == state_open) (codes "connection state is not OPEN")
    ok connection

  -- Those on the commitment.
  unfoldable pub commitment_check : Store → PacketData → Try Bytes (Unit {0})
  unfolding require get_packet_commitment make_packet_commitment
  commitment_check s packet = do
    (commitment, found) ←
        ok (get_packet_commitment chain s packet.source_port packet.source_channel packet.sequence)
    _ ← require found (codes "packet commitment not found")
    require (same_string commitment (make_packet_commitment chain packet))
        (codes "commitment bytes are not equal")

  unfoldable pub acknowledge_check : Store → MsgPacketAcknowledgement → Try Bytes (Unit {0})
  unfolding acknowledge_connection commitment_check require verify_packet_acknowledgement
  acknowledge_check s msg = do
    connection ← acknowledge_connection s msg.packet
    _ ← commitment_check s msg.packet
    proved ←
        verify_packet_acknowledgement clients s connection msg.proof_height msg.proof
          msg.packet.destination_port msg.packet.destination_channel msg.packet.sequence
          msg.acknowledgement
    require proved (codes "failed to verify packet acknowledgement commitment")

  -- The branch of an ordered channel.
  unfoldable pub acknowledge_ordered : Store → PacketData → Try Bytes Store
  unfolding require get_next_sequence_ack set_next_sequence_ack
  acknowledge_ordered s packet = do
    next ← ok (get_next_sequence_ack s packet.source_port packet.source_channel)
    _ ← require (next == 0) (codes "sequence ack not found")
    _ ← require (packet.sequence == next) (not_next "next ack sequence")
    set_next_sequence_ack chain s packet.source_port packet.source_channel ((next + 1) % 2 ^ 64)

  unfoldable pub acknowledge_sequence : Store → PacketData → ℕ → Try Bytes Store
  unfolding acknowledge_ordered
  acknowledge_sequence s packet ordering =
      if ordering == order_ordered then acknowledge_ordered s packet else ok s

  unfoldable pub acknowledge_packet : Store → MsgPacketAcknowledgement → Try Bytes Store
  unfolding acknowledge_check acknowledge_sequence delete_packet_commitment get_channel
  acknowledge_packet s msg = do
    _ ← acknowledge_check s msg
    (channel, found) ← ok (get_channel s msg.packet.source_port msg.packet.source_channel)
    s1 ← acknowledge_sequence s msg.packet channel.ordering
    delete_packet_commitment chain s1 msg.packet.source_port msg.packet.source_channel
        msg.packet.sequence
