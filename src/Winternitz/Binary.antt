-- ===== src/Winternitz/Binary.antt =====
-- winternitz.rs: BinarysearchVerifier, which hashes by the bits of the digit's complement.
pub mod Defs
pub mod Bits
pub mod Digit
