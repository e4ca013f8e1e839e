-- ===== src/MockClient.antt =====
-- pkg/ibc/client/mock: the messages of MockClient.pb.go.
pub mod ClientState
pub mod ConsensusState
pub mod Header
