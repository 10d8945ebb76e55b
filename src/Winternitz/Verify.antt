-- ===== src/Winternitz/Verify.antt =====
-- winternitz.rs: the scripts that verify a signature, with BinarysearchVerifier and VoidConverter.
pub mod Defs
pub mod Sum
pub mod Checksum
pub mod Digits
pub mod Signature
pub mod Clear
pub mod Number
pub mod Signed
