-- ===== src/Wallet.antt =====
-- pkg/wallet/wallet.go: HD wallet paths and the derivation of keys.
pub mod Path
pub mod PathLaws
pub mod PathSound
pub mod Derive
pub mod DeriveLaws
