-- ===== src/Core/Packet.antt =====
-- contracts/core/IBCChannel.sol: what the packet handlers share. Each handler is the checks it
-- starts with, which only read, and the writes.
pub mod Send
pub mod Receive
pub mod Acknowledge
pub mod Steps
pub mod Keeps
use Prim.Native.String.{String}
use yui_ibc_solidity.Prelude.{
  ℕ, ◌+◌, ◌%◌, ◌^◌, Bytes, List, [], ◌∷◌, ◌++◌, Bool, not, ◌&&◌, ◌||◌, if◌then◌else◌, ◌==◌, ltb,
  length, same_string, codes,
}
use yui_ibc_solidity.Prelude.Try.{Try, ok, err, ◌>>=◌}
use yui_ibc_solidity.Contract.Ibchost.Structs.{ChannelData, ConnectionEndData}
use yui_ibc_solidity.Contract.Ibchandler.Structs.{PacketData}
use yui_ibc_solidity.Core.Store.{Store, Chain, require}
use yui_ibc_solidity.Core.Host.{
  only_ibc_module, get_channel, get_connection, get_next_sequence_send, get_next_sequence_recv,
  get_next_sequence_ack, set_next_sequence_send, set_next_sequence_recv, set_next_sequence_ack,
  make_packet_commitment, set_packet_commitment, get_packet_commitment, delete_packet_commitment,
  get_packet_acknowledgement_commitment, set_packet_acknowledgement_commitment, set_packet_receipt,
  has_packet_receipt,
}
use yui_ibc_solidity.Core.Clients.{
  LightClients, get_client, verify_packet_commitment, verify_packet_acknowledgement,
}

-- The enums State of a channel and of a connection, and Order.
abbrev pub state_open : ℕ
state_open = 3

abbrev pub order_unordered : ℕ
order_unordered = 1

abbrev pub order_ordered : ℕ
order_ordered = 2

-- "packet sequence ≠ …", in UTF-8.
abbrev pub not_next : String → Bytes
not_next what = codes "packet sequence " ++ (0xe2 ∷ 0x89 ∷ 0xa0 ∷ codes " ") ++ codes what

pub record MsgPacketRecv : Type 0 where
  pub packet : PacketData
  pub proof : Bytes
  pub proof_height : ℕ

pub record MsgPacketAcknowledgement : Type 0 where
  pub packet : PacketData
  pub acknowledgement : Bytes
  pub proof : Bytes
  pub proof_height : ℕ

-- `connection_hops[0]`; an index out of range reverts.
unfoldable pub first_hop : List Bytes → Try Bytes Bytes
first_hop [] = err []
first_hop (hop ∷ hops) = ok hop
