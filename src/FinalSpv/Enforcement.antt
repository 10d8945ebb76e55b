-- ===== src/FinalSpv/Enforcement.antt =====
-- What the final circuit enforces of the SPV proof, and what it leaves open.
use bit_vm.Prelude.{
  ℕ, ◌≡◌, sym, Bool, true, some, List, ◌++◌, >>=-eq-some, >>=_assoc, some_inj, assert,
  assert-eq-some, bytes_eq, bytes_eq→eq,
}
use bit_vm.Hashing.{Bytes}
use bit_vm.Mmr.Defs.{MmrInclusionProof, verify_proof_guest}
use bit_vm.HeaderChain.State.Defs.{compute_block_hash, BlockHeaderCircuitOutput}
use bit_vm.FinalSpv.Merkle.{get_root}
use bit_vm.FinalSpv.Circuit.{FinalCircuitInput, txid, verify, final_circuit}

-- The same input with another inclusion proof for the mountain range.
abbrev pub with_mmr_proof : MmrInclusionProof → FinalCircuitInput → FinalCircuitInput
with_mmr_proof p input = record input { spv = record (input.spv) { mmr_inclusion_proof = p } }

module _ (sha256 blake3 : Bytes → Bytes)
    (verify_proof : List ℕ → BlockHeaderCircuitOutput → Bool) where
  -- If the final circuit commits an output, the earlier proof was verified against the guest id, the
  -- Merkle path leads from the transaction's id to the Merkle root in the given block header, and
  -- the output is BLAKE3 of the txid, the best block hash and the total work.
  pub final_circuit-eq-some :
      (guest_id : List ℕ) (input : FinalCircuitInput) (out : Bytes)
      → final_circuit sha256 blake3 verify_proof guest_id input ≡ some out
      → (verify_proof guest_id input.block_header_circuit_output ≡ true)
        × (get_root sha256 input.spv.block_inclusion_proof (txid sha256 input.spv.transaction)
            ≡ input.spv.block_header.merkle_root)
        × (out
            ≡ blake3 (
                txid sha256 input.spv.transaction
                ++ (input.block_header_circuit_output.chain_state.best_block_hash
                    ++ input.block_header_circuit_output.chain_state.total_work)))
  unfolding final_circuit verify
  final_circuit-eq-some guest_id input out e =
      let (_, proved, e₁) =
        >>=-eq-some (assert (verify_proof guest_id input.block_header_circuit_output)) _ e in
      let (_, verified, e₂) =
        >>=-eq-some
          (verify sha256 input.spv input.block_header_circuit_output.chain_state.block_hashes_mmr) _
          e₁ in
      let (_, rooted, _) =
        >>=-eq-some
          (assert (
            bytes_eq
              (get_root sha256 input.spv.block_inclusion_proof (txid sha256 input.spv.transaction))
              input.spv.block_header.merkle_root))
          (λ _. some (
            verify_proof_guest sha256 input.block_header_circuit_output.chain_state.block_hashes_mmr
              (compute_block_hash sha256 input.spv.block_header) input.spv.mmr_inclusion_proof))
          verified in
      (assert-eq-some _ proved, bytes_eq→eq _ _ (assert-eq-some _ rooted), sym (some_inj e₂))

  -- The final circuit commits the same output, or refuses alike, whatever the inclusion proof of the
  -- block in the mountain range says: the result of `verify` is dropped.
  pub final_circuit-with_mmr_proof :
      (guest_id : List ℕ) (input : FinalCircuitInput) (p : MmrInclusionProof)
      → final_circuit sha256 blake3 verify_proof guest_id (with_mmr_proof p input)
        ≡ final_circuit sha256 blake3 verify_proof guest_id input
  unfolding final_circuit verify
  final_circuit-with_mmr_proof guest_id input p = simp >>=_assoc
