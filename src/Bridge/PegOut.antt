-- ===== src/Bridge/PegOut.antt =====
-- bridge/src/graphs/peg_out.rs
pub mod Defs
pub mod Operations
pub mod Assertions
pub mod Status
pub mod Seen
pub mod Challenged
pub mod Progress
pub mod Verifier
pub mod Take
pub mod Agreement
