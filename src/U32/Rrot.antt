-- ===== src/U32/Rrot.antt =====
-- u32_rrot.rs: rotating a word to the right.
pub mod Defs
pub mod Extract
pub mod Rotate
pub mod Amount
pub mod General
pub mod Word
