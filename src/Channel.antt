-- ===== src/Channel.antt =====
-- pkg/ibc/channel: the messages of Channel.pb.go.
pub mod Height
pub mod Counterparty
pub mod End
pub mod Identified
pub mod Packet
pub mod NewPacket
pub mod PacketState
