-- ===== src/Client.antt =====
-- pkg/client: what the clients read from a node's answers.
pub mod RevertReason
pub mod Receipt
pub mod Proof
pub mod State
pub mod Wait
pub mod TxOpts
pub mod StateLaws
pub mod ProofLaws
