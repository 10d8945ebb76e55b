-- ===== src/FinalSpv/Circuit.antt =====
-- final-spv/src/spv.rs, transaction.rs and lib.rs: a transaction's ids, the SPV proof and the final
-- circuit. BLAKE3 and the zkVM's check of an earlier proof are arguments, and so are the consensus
-- encodings of a transaction's four parts.
use bit_vm.Prelude.{ℕ, Bool, Option, some, List, ◌++◌, ◌>>=◌, ◌>>◌, assert, bytes_eq}
use bit_vm.Hashing.{Bytes, calculate_sha256}
use bit_vm.Mmr.Defs.{MmrGuest, MmrInclusionProof, verify_proof_guest}
use bit_vm.HeaderChain.State.Defs.{CircuitBlockHeader, compute_block_hash, BlockHeaderCircuitOutput}
use bit_vm.FinalSpv.Merkle.{BlockInclusionProof, get_root}

-- What `mid_state_txid` encodes of the crate bitcoin's `Transaction`.
pub record Transaction : Type 0 where
  pub version : Bytes
  pub input : Bytes
  pub output : Bytes
  pub lock_time : Bytes

pub record Spv : Type 0 where
  pub transaction : Transaction
  pub block_inclusion_proof : BlockInclusionProof
  pub block_header : CircuitBlockHeader
  pub mmr_inclusion_proof : MmrInclusionProof

pub record FinalCircuitInput : Type 0 where
  pub block_header_circuit_output : BlockHeaderCircuitOutput
  pub spv : Spv

module _ (sha256 : Bytes → Bytes) where
  unfoldable pub mid_state_txid : Transaction → Bytes
  mid_state_txid tx =
      calculate_sha256 sha256 (tx.version ++ (tx.input ++ (tx.output ++ tx.lock_time)))

  unfoldable pub txid : Transaction → Bytes
  unfolding mid_state_txid
  txid tx = calculate_sha256 sha256 (mid_state_txid tx)

  -- `none` is the failed `assert_eq!` on the Merkle root.
  unfoldable pub verify : Spv → MmrGuest → Option Bool
  verify s mmr_guest = do
    assert (
        bytes_eq (get_root sha256 s.block_inclusion_proof (txid s.transaction))
          s.block_header.merkle_root)
    some (
        verify_proof_guest sha256 mmr_guest (compute_block_hash sha256 s.block_header)
          s.mmr_inclusion_proof)

  module _ (blake3 : Bytes → Bytes) (verify_proof : List ℕ → BlockHeaderCircuitOutput → Bool) where
    -- What the circuit commits; `guest_id` is `HEADER_CHAIN_GUEST_ID`.
    unfoldable pub final_circuit : List ℕ → FinalCircuitInput → Option Bytes
    final_circuit guest_id input = do
      assert (verify_proof guest_id input.block_header_circuit_output)
      _ ← verify input.spv input.block_header_circuit_output.chain_state.block_hashes_mmr
      some (
          blake3 (
            txid input.spv.transaction
            ++ (input.block_header_circuit_output.chain_state.best_block_hash
                ++ input.block_header_circuit_output.chain_state.total_work)))
