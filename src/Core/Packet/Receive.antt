-- ===== src/Core/Packet/Receive.antt =====
-- contracts/core/IBCChannel.sol: `recvPacket`.

use yui_ibc_solidity.Prelude.{
  ℕ, ◌+◌, ◌%◌, ◌^◌, Bytes, not, ◌&&◌, ◌||◌, if◌then◌else◌, ◌==◌, ltb, codes,
}
use yui_ibc_solidity.Prelude.Try.{Try, ok, err, ◌>>=◌}
use yui_ibc_solidity.Contract.Ibchandler.Structs.{PacketData}
use yui_ibc_solidity.Core.Store.{Store, Chain, require}
use yui_ibc_solidity.Core.Host.{
  only_ibc_module, get_channel, get_connection, get_next_sequence_recv, set_next_sequence_recv,
  make_packet_commitment, set_packet_receipt, has_packet_receipt,
}
use yui_ibc_solidity.Core.Clients.{LightClients, verify_packet_commitment}
use yui_ibc_solidity.Core.Packet.{
  state_open, order_unordered, order_ordered, not_next, MsgPacketRecv, first_hop,
}

module _ (chain : Chain) (clients : LightClients) where
  -- The checks of recvPacket, up to the proof.
  unfoldable pub recv_check : Store → MsgPacketRecv → Try Bytes (Unit {0})
  unfolding only_ibc_module require get_channel get_connection first_hop make_packet_commitment
      verify_packet_commitment
  recv_check s msg = do
    _ ← only_ibc_module chain s
    (channel, found) ← ok (get_channel s msg.packet.destination_port msg.packet.destination_channel)
    _ ← require found (codes "channel not found")
    _ ← require (channel.state == state_open) (codes "channel state must be OPEN")
    _ ←
        require (chain.equals msg.packet.source_port channel.counterparty.port_id)
          (codes "packet source port doesn't match the counterparty's port")
    _ ←
        require (chain.equals msg.packet.source_channel channel.counterparty.channel_id)
          (codes "packet source channel doesn't match the counterparty's channel")
    hop ← first_hop channel.connection_hops
    (connection, found) ← ok (get_connection s hop)
    _ ← require found (codes "connection not found")
    _ ← require (connection.state == state_open) (codes "connection state is not OPEN")
    _ ←
        require
          (msg.packet.timeout_height.revision_height == 0
            || ltb chain.block_number msg.packet.timeout_height.revision_height)
          (codes "block height >= packet timeout height")
    _ ←
        require
          (msg.packet.timeout_timestamp == 0
            || ltb chain.block_timestamp msg.packet.timeout_timestamp)
          (codes "block timestamp >= packet timeout timestamp")
    commitment ← ok (make_packet_commitment chain msg.packet)
    proved ←
        verify_packet_commitment clients s connection msg.proof_height msg.proof
          msg.packet.source_port msg.packet.source_channel msg.packet.sequence commitment
    require proved (codes "failed to verify packet commitment")

  -- The two branches on the channel's order.
  unfoldable pub receive_unordered : Store → PacketData → Try Bytes Store
  unfolding require has_packet_receipt set_packet_receipt
  receive_unordered s packet = do
    _ ←
        require
          (not (
            has_packet_receipt s packet.destination_port packet.destination_channel
              packet.sequence))
          (codes "packet sequence already has been received")
    set_packet_receipt chain s packet.destination_port packet.destination_channel packet.sequence

  unfoldable pub receive_ordered : Store → PacketData → Try Bytes Store
  unfolding require get_next_sequence_recv set_next_sequence_recv
  receive_ordered s packet = do
    next ← ok (get_next_sequence_recv s packet.destination_port packet.destination_channel)
    _ ← require (ltb 0 next && next == packet.sequence) (not_next "next receive sequence")
    set_next_sequence_recv chain s packet.destination_port packet.destination_channel
        ((next + 1) % 2 ^ 64)

  unfoldable pub recv_write : Store → PacketData → ℕ → Try Bytes Store
  unfolding receive_unordered receive_ordered
  recv_write s packet ordering =
      if ordering == order_unordered
      then receive_unordered s packet
      else if ordering == order_ordered
      then receive_ordered s packet
      else err (codes "unknown ordering type")

  -- The checks change nothing, so that the channel is the one they read.
  unfoldable pub recv_packet : Store → MsgPacketRecv → Try Bytes Store
  unfolding recv_check recv_write get_channel
  recv_packet s msg = do
    _ ← recv_check s msg
    (channel, found) ← ok (get_channel s msg.packet.destination_port msg.packet.destination_channel)
    recv_write s msg.packet channel.ordering
