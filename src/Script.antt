-- ===== src/Script.antt =====
-- The part of Bitcoin Script that the script generators under bitvm/src use: its opcodes, and what
-- they do to the two stacks under the rules of tapscript.
pub mod Defs
pub mod Run
