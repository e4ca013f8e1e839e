-- ===== src/Core/Packet/Send.antt =====
-- contracts/core/IBCChannel.sol: `sendPacket`.

use yui_ibc_solidity.Prelude.{◌+◌, ◌%◌, ◌^◌, Bytes, ◌||◌, ◌==◌, ltb, codes}
use yui_ibc_solidity.Prelude.Try.{Try, ok, ◌>>=◌}
use yui_ibc_solidity.Contract.Ibchandler.Structs.{PacketData}
use yui_ibc_solidity.Core.Store.{Store, Chain, require}
use yui_ibc_solidity.Core.Host.{
  only_ibc_module, get_channel, get_connection, get_next_sequence_send, set_next_sequence_send,
  set_packet_commitment,
}
use yui_ibc_solidity.Core.Clients.{LightClients, get_client}
use yui_ibc_solidity.Core.Packet.{state_open, not_next, first_hop}

module _ (chain : Chain) (clients : LightClients) where
  -- The checks of sendPacket that come before the sequence's.
  unfoldable pub send_check : Store → PacketData → Try Bytes (Unit {0})
  unfolding only_ibc_module require get_channel get_connection first_hop get_client
  send_check s packet = do
    _ ← only_ibc_module chain s
    (channel, found) ← ok (get_channel s packet.source_port packet.source_channel)
    _ ← require found (codes "channel not found")
    _ ← require (channel.state == state_open) (codes "channel state must be OPEN")
    _ ←
        require (chain.equals packet.destination_port channel.counterparty.port_id)
          (codes "packet destination port doesn't match the counterparty's port")
    _ ←
        require (chain.equals packet.destination_channel channel.counterparty.channel_id)
          (codes "packet destination channel doesn't match the counterparty's channel")
    hop ← first_hop channel.connection_hops
    (connection, found) ← ok (get_connection s hop)
    _ ← require found (codes "connection not found")
    client ← get_client s connection.client_id
    (latest_height, found) ← clients.get_latest_height client s connection.client_id
    _ ←
        require
          (packet.timeout_height.revision_height == 0
            || ltb latest_height packet.timeout_height.revision_height)
          (codes "receiving chain block height >= packet timeout height")
    (latest_timestamp, found) ←
        clients.get_timestamp_at_height client s connection.client_id latest_height
    _ ← require found (codes "consensusState not found")
    require (packet.timeout_timestamp == 0 || ltb latest_timestamp packet.timeout_timestamp)
        (codes "receiving chain block timestamp >= packet timeout timestamp")

  -- What follows them, from the read of the next sequence.
  unfoldable pub send_sequence : Store → PacketData → Try Bytes Store
  unfolding get_next_sequence_send require set_next_sequence_send set_packet_commitment
  send_sequence s packet = do
    next ← ok (get_next_sequence_send s packet.source_port packet.source_channel)
    _ ← require (ltb 0 next) (codes "sequenceSend not found")
    _ ← require (packet.sequence == next) (not_next "next send sequence")
    s1 ←
        set_next_sequence_send chain s packet.source_port packet.source_channel
          ((next + 1) % 2 ^ 64)
    set_packet_commitment chain s1 packet.source_port packet.source_channel packet.sequence packet

  unfoldable pub send_packet : Store → PacketData → Try Bytes Store
  unfolding send_check send_sequence
  send_packet s packet = do _ ← send_check s packet; send_sequence s packet
