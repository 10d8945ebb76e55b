-- ===== src/Winternitz.antt =====
-- bitvm/src/signatures: Winternitz signatures and the scripts that verify them.
pub mod Digits
pub mod Defs
pub mod Checksum
pub mod Binary
pub mod Verify
