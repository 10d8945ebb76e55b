-- ===== src/HeaderChain.antt =====
-- header-chain/src/header_chain.rs and lib.rs: Bitcoin header verification as the circuit does it.
-- The network is fixed when the program is built (`option_env!`), so it is an argument. u32
-- arithmetic wraps, as in the release build of the guest.
pub mod Network
pub mod Target
pub mod Timestamp
pub mod State
