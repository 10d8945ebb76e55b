-- ===== src/FinalSpv.antt =====
-- final-spv/src: the proof that a Bitcoin transaction lies in a block of the header chain.
-- Transactions and their consensus encoding are the crate bitcoin's, so they are arguments.
pub mod Merkle
pub mod Levels
pub mod Inclusion
pub mod Circuit
pub mod Enforcement
pub mod Binding
