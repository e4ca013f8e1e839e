-- ===== src/Tests.antt =====
-- The definitions at concrete inputs, and the theorems applied to them.
mod Events
mod Receipts
mod Packetflow
mod Reading
pub mod Packets
pub mod Channels
pub mod IdentifiedChannels
pub mod PacketStates
pub mod Connections
pub mod Ibft2ClientStates
pub mod Ibft2ConsensusStates
pub mod Ibft2Headers
pub mod Transfers
pub mod Wire
pub mod Keys
pub mod Blocks
pub mod Commitments
pub mod Relays
