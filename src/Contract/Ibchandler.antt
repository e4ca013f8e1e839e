-- ===== src/Contract/Ibchandler.antt =====
-- pkg/contract/ibchandler/ibchandler.go: the binding of a contract.
pub mod Structs
pub mod Caller
pub mod Transactor
pub mod Events
