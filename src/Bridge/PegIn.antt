-- ===== src/Bridge/PegIn.antt =====
-- bridge/src/graphs/peg_in.rs
pub mod Defs
pub mod Refund
