-- ===== src/Ibft2.antt =====
-- pkg/ibc/client/ibft2: the messages of IBFT2.pb.go.
pub mod ClientState
pub mod ConsensusState
pub mod Header
