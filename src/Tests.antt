-- ===== src/Tests.antt =====
-- Runs of the model on concrete inputs, with a reference for U256 and a toy hash.
mod Reference
mod Ranges
mod Chain
mod Rules
mod Spv
mod Words
mod Winternitz
mod Bridge
mod PegIn
