-- ===== src/Dna.antt =====
-- The archive tier: mdc/src/mdc/dna.
pub mod Encoder
pub mod Ecc
pub mod Crypto
pub mod Packed
pub mod Corruption
pub mod Storage
pub mod Research
