-- ===== src/Normalize.antt =====
-- src/normalize/: what the kernel needs, from what the pools send.
pub mod Endian
pub mod Targets
pub mod Midstate
pub mod Merkle
pub mod Coinbase
pub mod RollingCaps
pub mod Normalizer
