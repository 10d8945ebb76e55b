-- ===== src/U32/Xor.antt =====
-- u32_xor.rs: the table that the operations on bits look up, and `u8_xor`.
pub mod Bits
pub mod Table
pub mod Byte
