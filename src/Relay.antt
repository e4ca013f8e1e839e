-- ===== src/Relay.antt =====
-- pkg/testing: messages wrapped in Any, and the header that a relayer sends to a client of an IBFT 2.0 chain.
pub mod Any
pub mod CallData
pub mod AnyLaws
pub mod UpdateClient
pub mod UpdateClientLaws
pub mod FindPacket
pub mod FindPacketLaws
