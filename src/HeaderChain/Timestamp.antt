-- ===== src/HeaderChain/Timestamp.antt =====
-- The median of the last eleven timestamps.
pub mod Defs
pub mod Median
