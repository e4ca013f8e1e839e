-- ===== src/Contract/Simpletoken.antt =====
-- pkg/contract/simpletoken/simpletoken.go: the binding of a contract.
pub mod Caller
pub mod Transactor
pub mod Events
