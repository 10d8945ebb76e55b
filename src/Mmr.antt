-- ===== src/Mmr.antt =====
-- The Merkle mountain range of the header chain: header-chain/src/mmr_guest.rs (the compact form
-- kept inside the circuit) and header-chain/src/mmr_native.rs (the full form kept outside).
-- A `Vec` used as a stack is a list, last pushed first (`subroots`); any other `Vec` is a list in
-- order. Arithmetic on u32 is that of a release build: it wraps.
pub mod Defs
pub mod Tower
pub mod Push
pub mod Append
pub mod Index
pub mod Climb
pub mod Count
pub mod Located
pub mod Inclusion
pub mod Binding
