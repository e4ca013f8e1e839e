-- ===== src/Core.antt =====
-- contracts/core: the store of IBCHost and the channel and packet handlers of IBCChannel.
pub mod Store
pub mod Host
pub mod Clients
pub mod Channel
pub mod Packet
pub mod Run
pub mod Once
pub mod Sent
pub mod Reads
pub mod Digits
