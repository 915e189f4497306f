-- ===== src/Stacking.antt =====
-- packages/stacking/src/utils.ts and packages/encryption/src/keys.ts: Bitcoin addresses of rewards.
pub mod Codec
pub mod Base58
pub mod Address
pub mod Bitcoin
pub mod Tuple
pub mod Legacy
