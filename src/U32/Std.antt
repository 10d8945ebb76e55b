-- ===== src/U32/Std.antt =====
-- u32_std.rs, with what it calls of pseudo.rs.
pub mod Defs
pub mod Moves
pub mod Compress
pub mod RoundTrip
