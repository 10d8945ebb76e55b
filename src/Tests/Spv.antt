-- ===== src/Tests/Spv.antt =====
-- The SPV proof of a block of three transactions, and the final circuit on one of them.
use bit_vm.Prelude.{
  ◌⊎◌, ℕ, ◌≡◌, refl, Bool, true, some, List, [], ◌∷◌, ◌++◌, map, get_elem?, replicate, arith,
}
use bit_vm.Hashing.Collision.{Collision}
use bit_vm.FinalSpv.Binding.{verify_merkle_proof-injective}
use bit_vm.Hashing.{Bytes, calculate_sha256, calculate_double_sha256}
use bit_vm.Mmr.Defs.{MmrInclusionProof}
use bit_vm.HeaderChain.State.Defs.{BlockHeaderCircuitOutput, ChainState}
use bit_vm.FinalSpv.Merkle.{
  verify_merkle_proof, BitcoinMerkleTree, BlockInclusionProof, next_level, build_levels, build_tree,
  root, generate_proof, parent_node, new, new_mid_state, climb, get_root,
}
use bit_vm.FinalSpv.Circuit.{
  Transaction, FinalCircuitInput, mid_state_txid, txid, verify, final_circuit,
}
use bit_vm.FinalSpv.Inclusion.{get_root-generate_proof}
use bit_vm.FinalSpv.Enforcement.{
  with_mmr_proof, final_circuit-eq-some, final_circuit-with_mmr_proof,
}
use bit_vm.Tests.Reference.{toy_sha256}

abbrev mids : List Bytes
mids = (1 ∷ []) ∷ (2 ∷ []) ∷ (4 ∷ []) ∷ []

abbrev node : ℕ → Bytes
node b = b ∷ replicate 31 0

abbrev bitcoin : BitcoinMerkleTree
bitcoin = record {
  nodes = (node 1 ∷ node 2 ∷ node 4 ∷ []) ∷ (node 3 ∷ node 8 ∷ []) ∷ (node 11 ∷ []) ∷ [];
}

bitcoin_built : new toy_sha256 (map toy_sha256 mids) ≡ some bitcoin
unfolding new build_tree build_levels next_level parent_node calculate_double_sha256
bitcoin_built = refl

get_root-generate_proof_example :
    (mid : BitcoinMerkleTree) × (proof : BlockInclusionProof) × (x top : Bytes) × (new_mid_state
        toy_sha256 mids
      ≡ some mid)
    × (get_elem? mids 2 ≡ some x)
    × (generate_proof mid 2 ≡ some proof)
    × (root mid ≡ some top)
    × (root bitcoin ≡ some (toy_sha256 top))
    × (get_root toy_sha256 proof (toy_sha256 x) ≡ toy_sha256 top)
get_root-generate_proof_example =
    get_root-generate_proof toy_sha256 mids 2 bitcoin (omega arith) bitcoin_built

abbrev transaction : Transaction
transaction = record { version = 4 ∷ []; input = []; output = []; lock_time = [] }

abbrev no_mmr_proof : MmrInclusionProof
no_mmr_proof = record { subroot_idx = 0; internal_idx = 0; inclusion_proof = [] }

abbrev state : ChainState
state = record {
  block_height = 0;
  total_work = 2 ∷ [];
  best_block_hash = 9 ∷ [];
  current_target_bits = 0;
  epoch_start_time = 0;
  prev_11_timestamps = [];
  block_hashes_mmr = record { subroots = []; size = 0 };
}

abbrev input : FinalCircuitInput
input = record {
  block_header_circuit_output = record { method_id = []; chain_state = state };
  spv = record {
    transaction = transaction;
    block_inclusion_proof = record { idx = 2; merkle_proof = (4 ∷ []) ∷ (3 ∷ []) ∷ [] };
    block_header = record {
      version = 1;
      prev_block_hash = [];
      merkle_root = node 11;
      time = 0;
      bits = 0;
      nonce = 0;
    };
    mmr_inclusion_proof = no_mmr_proof;
  };
}

-- A zkVM that has proved every output.
abbrev proved : List ℕ → BlockHeaderCircuitOutput → Bool
proved guest_id output = true

commits : final_circuit toy_sha256 toy_sha256 proved (7 ∷ []) input ≡ some (node 15)
unfolding final_circuit verify txid mid_state_txid get_root climb calculate_sha256
    calculate_double_sha256
commits = refl

final_circuit-eq-some_example :
    (proved (7 ∷ []) input.block_header_circuit_output ≡ true)
    × (get_root toy_sha256 input.spv.block_inclusion_proof (txid toy_sha256 input.spv.transaction)
        ≡ input.spv.block_header.merkle_root)
    × (node 15 ≡ toy_sha256 (txid toy_sha256 input.spv.transaction ++ ((9 ∷ []) ++ (2 ∷ []))))
final_circuit-eq-some_example =
    final_circuit-eq-some toy_sha256 toy_sha256 proved (7 ∷ []) input (node 15) commits

final_circuit-with_mmr_proof_example :
    final_circuit toy_sha256 toy_sha256 proved (7 ∷ []) (with_mmr_proof no_mmr_proof input)
    ≡ final_circuit toy_sha256 toy_sha256 proved (7 ∷ []) input
final_circuit-with_mmr_proof_example =
    final_circuit-with_mmr_proof toy_sha256 toy_sha256 proved (7 ∷ []) input no_mmr_proof

abbrev path : BlockInclusionProof
path = record { idx = 1; merkle_proof = (4 ∷ []) ∷ [] }

abbrev one_leaf : Bytes
one_leaf = 1 ∷ []

abbrev other_leaf : Bytes
other_leaf = 0 ∷ 1 ∷ []

one_verified : verify_merkle_proof toy_sha256 one_leaf path (node 5) ≡ true
unfolding verify_merkle_proof get_root climb calculate_sha256 calculate_double_sha256
one_verified = refl

other_verified : verify_merkle_proof toy_sha256 other_leaf path (node 5) ≡ true
unfolding verify_merkle_proof get_root climb calculate_sha256 calculate_double_sha256
other_verified = refl

verify_merkle_proof-injective_example : (one_leaf ≡ other_leaf) ⊎ Collision toy_sha256
verify_merkle_proof-injective_example =
    verify_merkle_proof-injective toy_sha256 path one_leaf other_leaf (node 5) one_verified
      other_verified
