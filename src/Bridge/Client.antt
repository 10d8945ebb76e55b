-- ===== src/Bridge/Client.antt =====
-- bridge/src/client/client.rs: the client's calls of the peg-out graphs' operations.
pub mod Defs
pub mod Process
