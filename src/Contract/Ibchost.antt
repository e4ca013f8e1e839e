-- ===== src/Contract/Ibchost.antt =====
-- pkg/contract/ibchost/ibchost.go: the binding of a contract.
pub mod Structs
pub mod Caller
pub mod Transactor
pub mod Events
