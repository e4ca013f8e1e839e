-- ===== src/Connection.antt =====
-- pkg/ibc/connection: the messages of Connection.pb.go.
pub mod MerklePrefix
pub mod Version
pub mod Counterparty
pub mod End
