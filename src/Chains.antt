-- ===== src/Chains.antt =====
-- pkg/chains: the headers of an IBFT 2.0 chain and their commit seals.
pub mod Header
pub mod Seals
pub mod SealsLaws
pub mod Certificate
