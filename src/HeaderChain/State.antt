-- ===== src/HeaderChain/State.antt =====
-- The chain state and `apply_blocks`.
pub mod Defs
pub mod Step
pub mod Linked
pub mod Split
pub mod History
