-- ===== src/Words.antt =====
-- Numbers as byte strings: the std library's `to_le_bytes` and `from_be_bytes`, the crate
-- crypto_bigint's U256 as an interface, and an instance of that interface.
pub mod Bytes
pub mod U256
