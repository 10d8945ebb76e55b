-- ===== src/U32.antt =====
-- bitvm/src/u32: arithmetic on 32-bit words, each word four stack elements of a byte.
pub mod Stack
pub mod Zip
pub mod Add
pub mod Rrot
pub mod Xor
pub mod Std
