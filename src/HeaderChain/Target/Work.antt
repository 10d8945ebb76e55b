-- ===== src/HeaderChain/Target/Work.antt =====
-- `calculate_work` against the work of a block in Bitcoin Core's GetBlockProof.
use bit_vm.Prelude.{ℕ, ◌+◌, ◌-◌, ◌/◌, ◌^◌}
use bit_vm.Words.U256.{U256}

-- The work that Bitcoin Core computes, with `~target` for the largest number less the target.
abbrev pub get_block_proof : ℕ → ℕ
get_block_proof target = (2 ^ 256 - 1 - target) / (target + 1) + 1
