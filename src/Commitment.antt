-- ===== src/Commitment.antt =====
-- pkg/testing/types.go: big-endian numbers, and packet and acknowledgement commitments.
pub mod Uint64
pub mod Commit
pub mod Binding
