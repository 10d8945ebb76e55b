-- ===== src/HeaderChain/Target.antt =====
-- Targets: their compact form, retargeting, the hash check and the work.
pub mod Defs
pub mod Hash
pub mod Compact
pub mod Retarget
pub mod Work
