-- ===== src/Tests/Chain.antt =====
-- The header chain on two headers of a regtest chain.
use bit_vm.Prelude.{
  Bool, true, List, subst, ap, ℕ, ◌+◌, ◌-◌, ◌%◌, ◌^◌, ◌≡◌, refl, some, [], ◌∷◌, ◌++◌, length,
  replicate, ◌>>=◌, arith,
}
use bit_vm.Hashing.{Bytes, calculate_double_sha256, hash_pair}
use bit_vm.Mmr.Defs.{merge_subroots, append_guest, new_guest}
use bit_vm.Mmr.Append.{append_all_guest}
use bit_vm.Words.Bytes.{be_value, be_bytes, le_bytes}
use bit_vm.HeaderChain.Network.{regtest, network_constants, is_regtest, is_testnet4}
use bit_vm.HeaderChain.Target.Defs.{compare_bytes, check_hash_valid, calculate_work}
use bit_vm.HeaderChain.Timestamp.Defs.{insert_sorted, sort_unstable, median, validate_timestamp}
use bit_vm.HeaderChain.State.Defs.{
  BlockHeaderCircuitOutput, HeaderChainPrevProofType, genesis_block, prev_proof,
  HeaderChainCircuitInput, header_chain_circuit, CircuitBlockHeader, ChainState, compute_block_hash,
  new_chain_state, enter, demand, accept, retarget, epoch_start, advance, apply_block,
  apply_headers, leave, apply_blocks,
}
use bit_vm.HeaderChain.State.Linked.{IsLinked, last_hash, block_hashes, apply_blocks-IsLinked}
use bit_vm.HeaderChain.State.Split.{StaysInEpoch, apply_blocks-append}
use bit_vm.HeaderChain.State.History.{Committed, first_run, header_chain_circuit-IsLinked}
use bit_vm.Tests.Reference.{reference, toy_sha256}

abbrev header : ℕ → Bytes → CircuitBlockHeader
header time prev = record {
  version = 1;
  prev_block_hash = prev;
  merkle_root = replicate 32 7;
  time = time;
  bits = 0x207FFFFF;
  nonce = 0;
}

abbrev first : CircuitBlockHeader
first = header 1 (replicate 32 0)

abbrev second : CircuitBlockHeader
second = header 2 (127 ∷ replicate 31 0)

abbrev genesis : ChainState
genesis = new_chain_state toy_sha256 reference regtest

abbrev after : ChainState
after = record {
  block_height = 1;
  total_work = replicate 31 0 ++ 4 ∷ [];
  best_block_hash = 255 ∷ replicate 31 0;
  current_target_bits = 0x207FFFFF;
  epoch_start_time = 0;
  prev_11_timestamps = 1 ∷ 2 ∷ replicate 9 0;
  block_hashes_mmr = record { subroots = (126 ∷ replicate 31 0) ∷ []; size = 2 };
}

apply_two : apply_blocks toy_sha256 reference regtest genesis (first ∷ second ∷ []) ≡ some after
unfolding apply_blocks enter apply_headers apply_block leave demand accept retarget epoch_start
    advance check_hash_valid compare_bytes calculate_work validate_timestamp median sort_unstable
    insert_sorted network_constants is_regtest is_testnet4 compute_block_hash
    calculate_double_sha256 hash_pair le_bytes be_bytes be_value append_guest merge_subroots
    new_guest new_chain_state
apply_two = refl

genesis_height : genesis.block_height ≡ 2 ^ 32 - 1
unfolding new_chain_state
genesis_height = refl

genesis_timestamps : length genesis.prev_11_timestamps ≡ 11
unfolding new_chain_state
genesis_timestamps = refl

apply_blocks-IsLinked_example :
    IsLinked toy_sha256 reference regtest genesis.best_block_hash (first ∷ second ∷ [])
    × (after.best_block_hash
        ≡ last_hash toy_sha256 reference regtest genesis.best_block_hash (first ∷ second ∷ []))
    × (after.block_height ≡ (genesis.block_height + 2) % 2 ^ 32)
    × (append_all_guest toy_sha256 genesis.block_hashes_mmr
          (block_hashes toy_sha256 reference regtest (first ∷ second ∷ []))
        ≡ some after.block_hashes_mmr)
apply_blocks-IsLinked_example =
    apply_blocks-IsLinked toy_sha256 reference regtest genesis after (first ∷ second ∷ [])
      (omega (arith, genesis_height)) apply_two

stays : StaysInEpoch genesis.block_height 1
stays i h = (λ e. omega (arith, genesis_height), λ e. omega (arith, genesis_height))

apply_blocks-append_example :
    apply_blocks toy_sha256 reference regtest genesis (first ∷ second ∷ []) ≡ (
      apply_blocks toy_sha256 reference regtest genesis (first ∷ []) >>= λ s.
      apply_blocks toy_sha256 reference regtest s (second ∷ []))
apply_blocks-append_example =
    apply_blocks-append toy_sha256 reference regtest genesis (first ∷ []) (second ∷ [])
      genesis_timestamps (omega (arith, genesis_height)) stays

-- A zkVM that accepts every earlier output, and two runs of one header each.
abbrev accepts : List ℕ → BlockHeaderCircuitOutput → Bool
accepts method_id output = true

abbrev after_first : ChainState
after_first = record {
  block_height = 0;
  total_work = replicate 31 0 ++ 2 ∷ [];
  best_block_hash = 127 ∷ replicate 31 0;
  current_target_bits = 0x207FFFFF;
  epoch_start_time = 0;
  prev_11_timestamps = 1 ∷ replicate 10 0;
  block_hashes_mmr = record { subroots = (127 ∷ replicate 31 0) ∷ []; size = 1 };
}

abbrev first_output : BlockHeaderCircuitOutput
first_output = record { method_id = 5 ∷ []; chain_state = after_first }

abbrev first_input : HeaderChainCircuitInput
first_input = record { method_id = 5 ∷ []; prev_proof = genesis_block; block_headers = first ∷ [] }

abbrev second_input : HeaderChainCircuitInput
second_input = record {
  method_id = 5 ∷ [];
  prev_proof = prev_proof first_output;
  block_headers = second ∷ [];
}

abbrev output_of : HeaderChainPrevProofType → BlockHeaderCircuitOutput
output_of genesis_block = first_output
output_of (prev_proof output) = output

first_committed :
    header_chain_circuit toy_sha256 reference regtest accepts first_input ≡ some first_output
unfolding header_chain_circuit apply_blocks enter apply_headers apply_block leave demand accept
    retarget epoch_start advance check_hash_valid compare_bytes calculate_work validate_timestamp
    median sort_unstable insert_sorted network_constants is_regtest is_testnet4 compute_block_hash
    calculate_double_sha256 hash_pair le_bytes be_bytes be_value append_guest merge_subroots
    new_guest new_chain_state
first_committed = refl

second_committed :
    header_chain_circuit toy_sha256 reference regtest accepts second_input
    ≡ some (record { method_id = 5 ∷ []; chain_state = after })
unfolding header_chain_circuit apply_blocks enter apply_headers apply_block leave demand accept
    retarget epoch_start advance check_hash_valid compare_bytes calculate_work validate_timestamp
    median sort_unstable insert_sorted network_constants is_regtest is_testnet4 compute_block_hash
    calculate_double_sha256 hash_pair le_bytes be_bytes be_value append_guest merge_subroots
    new_guest new_chain_state
second_committed = refl

sound :
    (earlier : BlockHeaderCircuitOutput)
    → second_input.prev_proof ≡ prev_proof earlier
    → accepts (5 ∷ []) earlier ≡ true
    → Committed toy_sha256 reference regtest accepts (5 ∷ []) earlier
sound earlier e _ =
    subst (Committed toy_sha256 reference regtest accepts (5 ∷ [])) (ap output_of e)
      (first_run (first ∷ []) first_output first_committed)

header_chain_circuit-IsLinked_example :
    (headers : List CircuitBlockHeader) × IsLinked toy_sha256 reference regtest
      (replicate 32 0)
      headers
    × (after.best_block_hash ≡ last_hash toy_sha256 reference regtest (replicate 32 0) headers)
    × (after.block_height ≡ (2 ^ 32 - 1 + length headers) % 2 ^ 32)
    × (append_all_guest toy_sha256 new_guest (block_hashes toy_sha256 reference regtest headers)
        ≡ some after.block_hashes_mmr)
header_chain_circuit-IsLinked_example =
    header_chain_circuit-IsLinked toy_sha256 reference regtest accepts second_input
      (record { method_id = 5 ∷ []; chain_state = after }) sound second_committed
