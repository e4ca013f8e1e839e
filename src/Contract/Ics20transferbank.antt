-- ===== src/Contract/Ics20transferbank.antt =====
-- pkg/contract/ics20transferbank/ics20transferbank.go: the binding of a contract.
pub mod Structs
pub mod Transactor
