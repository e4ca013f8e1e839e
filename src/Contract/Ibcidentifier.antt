-- ===== src/Contract/Ibcidentifier.antt =====
-- pkg/contract/ibcidentifier/ibcidentifier.go: the binding of a contract.
pub mod Caller
