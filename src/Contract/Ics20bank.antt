-- ===== src/Contract/Ics20bank.antt =====
-- pkg/contract/ics20bank/ics20bank.go: the binding of a contract.
pub mod Caller
pub mod Transactor
pub mod Events
