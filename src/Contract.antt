-- ===== src/Contract.antt =====
-- pkg/contract: the bindings of the contracts, and the loops over their events.
pub mod Bound
pub mod Addresses
pub mod Iterator
pub mod Watch
pub mod Ibchost
pub mod Ibchandler
pub mod Ibcidentifier
pub mod Simpletoken
pub mod Ics20bank
pub mod Ics20transferbank
