-- ===== src/HeaderChain/State/Defs.antt =====
-- Headers, the chain state, `apply_blocks` and the circuit around it.
use bit_vm.Prelude.{
  ℕ, ◌+◌, ◌-◌, ◌%◌, ◌^◌, Bool, ◌&&◌, not, Option, some, List, [], ◌∷◌, ◌++◌, get_or, set, replicate,
  ltb, ◌==◌, if◌then◌else◌, ◌>>=◌, ◌>>◌, assert, bytes_eq,
}
use bit_vm.Hashing.{Bytes, calculate_double_sha256}
use bit_vm.Words.Bytes.{le_bytes}
use bit_vm.Words.U256.{U256}
use bit_vm.Mmr.Defs.{MmrGuest, new_guest, append_guest}
use bit_vm.HeaderChain.Network.{
  Network, network_constants, is_regtest, is_testnet4, minimum_work_testnet, blocks_per_epoch,
}
use bit_vm.HeaderChain.Target.Defs.{
  bits_to_target, target_to_bits, calculate_new_difficulty, calculate_work, check_hash_valid,
}
use bit_vm.HeaderChain.Timestamp.Defs.{validate_timestamp}

-- `version` is the bit pattern of an i32.
pub record CircuitBlockHeader : Type 0 where
  pub version : ℕ
  pub prev_block_hash : Bytes
  pub merkle_root : Bytes
  pub time : ℕ
  pub bits : ℕ
  pub nonce : ℕ

pub record ChainState : Type 0 where
  pub block_height : ℕ
  pub total_work : Bytes
  pub best_block_hash : Bytes
  pub current_target_bits : ℕ
  pub epoch_start_time : ℕ
  pub prev_11_timestamps : List ℕ
  pub block_hashes_mmr : MmrGuest

-- The variables of the loop in `apply_blocks`: the state and what the loop keeps beside it.
pub record Progress : Type 0 where
  pub state : ChainState
  pub current_target_bytes : Bytes
  pub current_work : ℕ
  pub last_block_time : ℕ

pub record BlockHeaderCircuitOutput : Type 0 where
  pub method_id : List ℕ
  pub chain_state : ChainState

pub data HeaderChainPrevProofType : Type 0 where
  genesis_block : HeaderChainPrevProofType
  prev_proof : BlockHeaderCircuitOutput → HeaderChainPrevProofType

pub record HeaderChainCircuitInput : Type 0 where
  pub method_id : List ℕ
  pub prev_proof : HeaderChainPrevProofType
  pub block_headers : List CircuitBlockHeader

unfoldable pub compute_block_hash : (Bytes → Bytes) → CircuitBlockHeader → Bytes
compute_block_hash sha256 h = calculate_double_sha256 sha256 (
    le_bytes 4 h.version
    ++ (h.prev_block_hash
        ++ (h.merkle_root ++ (le_bytes 4 h.time ++ (le_bytes 4 h.bits ++ le_bytes 4 h.nonce)))))

module _ (sha256 : Bytes → Bytes) (u : U256) (net : Network) where
  unfoldable pub new_chain_state : ChainState
  new_chain_state = record {
    block_height = 2 ^ 32 - 1;
    total_work = replicate 32 0;
    best_block_hash = replicate 32 0;
    current_target_bits = (network_constants net).max_bits;
    epoch_start_time = 0;
    prev_11_timestamps = replicate 11 0;
    block_hashes_mmr = new_guest;
  }

  -- What `apply_blocks` sets up before its loop.
  unfoldable pub enter : ChainState → Progress
  enter s = record {
    state = s;
    current_target_bytes =
        if is_regtest net
        then u.to_be_bytes ((network_constants net).max_target)
        else bits_to_target u s.current_target_bits;
    current_work = u.from_be_bytes s.total_work;
    last_block_time =
        if is_testnet4 net
        then (if s.block_height == 2 ^ 32 - 1
            then 0
            else get_or s.prev_11_timestamps (s.block_height % 11) 0)
        else 0;
  }

  -- The target, the bits and the work that a header at `height` has to meet.
  pub record Demand : Type 0 where
    pub target_to_use : Bytes
    pub expected_bits : ℕ
    pub work_to_add : ℕ

  unfoldable pub demand : Progress → ℕ → CircuitBlockHeader → Demand
  demand p height h =
      let real : Demand = record {
        target_to_use = p.current_target_bytes;
        expected_bits = p.state.current_target_bits;
        work_to_add = calculate_work u p.current_target_bytes;
      } in
      let easy : Demand = record {
        target_to_use = (network_constants net).max_target_bytes;
        expected_bits = (network_constants net).max_bits;
        work_to_add = minimum_work_testnet;
      } in
      if is_testnet4 net
      then (if ltb ((p.last_block_time + 1200) % 2 ^ 32) h.time
          then (if height % blocks_per_epoch == 0 then real else easy)
          else real)
      else real

  -- The assertions of the loop's body, in order.
  unfoldable pub accept : Progress → Demand → CircuitBlockHeader → Option (Unit {0})
  accept p d h = do
    assert (bytes_eq h.prev_block_hash p.state.best_block_hash)
    assert
        (h.bits == (if is_regtest net then (network_constants net).max_bits else d.expected_bits))
    check_hash_valid (compute_block_hash sha256 h) d.target_to_use
    assert (validate_timestamp h.time p.state.prev_11_timestamps)

  -- The target and its bits after a header.
  unfoldable pub retarget : Progress → ℕ → ℕ → ℕ → Option (Bytes × ℕ)
  retarget p height epoch_start_time time =
      if not (is_regtest net) && height % blocks_per_epoch == blocks_per_epoch - 1
      then (let target =
            calculate_new_difficulty u net epoch_start_time time p.state.current_target_bits in
          target_to_bits u target >>= λ bits. some (target, bits))
      else some (p.current_target_bytes, p.state.current_target_bits)

  -- The start of the epoch that the header at `height` belongs to.
  unfoldable pub epoch_start : Progress → ℕ → CircuitBlockHeader → ℕ
  epoch_start p height h =
      if not (is_regtest net) && height % blocks_per_epoch == 0
      then h.time
      else p.state.epoch_start_time

  -- The loop's variables after the header at `height`.
  unfoldable pub advance : Progress → ℕ → CircuitBlockHeader → MmrGuest → Bytes × ℕ → Progress
  unfolding epoch_start
  advance p height h mmr target = record {
    state = record {
      block_height = height;
      total_work = p.state.total_work;
      best_block_hash = compute_block_hash sha256 h;
      current_target_bits = target.1;
      epoch_start_time = epoch_start p height h;
      prev_11_timestamps = set p.state.prev_11_timestamps (height % 11) h.time;
      block_hashes_mmr = mmr;
    };
    current_target_bytes = target.0;
    current_work = u.wrapping_add p.current_work (demand p height h).work_to_add;
    last_block_time = if is_testnet4 net then h.time else p.last_block_time;
  }

  -- The body of the loop.
  unfoldable pub apply_block : Progress → CircuitBlockHeader → Option Progress
  apply_block p h =
      let height = (p.state.block_height + 1) % 2 ^ 32 in
      do
        accept p (demand p height h) h
        mmr ← append_guest sha256 p.state.block_hashes_mmr (compute_block_hash sha256 h)
        target ← retarget p height (epoch_start p height h) h.time
        some (advance p height h mmr target)

  unfoldable pub apply_headers : Progress → List CircuitBlockHeader → Option Progress
  apply_headers p [] = some p
  apply_headers p (h ∷ hs) = apply_block p h >>= λ p'. apply_headers p' hs

  -- What `apply_blocks` does after its loop.
  unfoldable pub leave : Progress → ChainState
  leave p = record {
    block_height = p.state.block_height;
    total_work = u.to_be_bytes p.current_work;
    best_block_hash = p.state.best_block_hash;
    current_target_bits = p.state.current_target_bits;
    epoch_start_time = p.state.epoch_start_time;
    prev_11_timestamps = p.state.prev_11_timestamps;
    block_hashes_mmr = p.state.block_hashes_mmr;
  }

  unfoldable pub apply_blocks : ChainState → List CircuitBlockHeader → Option ChainState
  unfolding enter apply_headers leave
  apply_blocks s headers = apply_headers (enter s) headers >>= λ p. some (leave p)

  -- `verify` is the zkVM's check of an earlier proof; the result is what the circuit commits.
  unfoldable pub header_chain_circuit :
      (List ℕ → BlockHeaderCircuitOutput → Bool)
      → HeaderChainCircuitInput
      → Option BlockHeaderCircuitOutput
  unfolding apply_blocks
  header_chain_circuit verify input = do
    chain_state ← elim input.prev_proof [
      | genesis_block ↦ some new_chain_state
      | prev_proof earlier ↦
          assert (bytes_eq earlier.method_id input.method_id)
          >> (assert (verify input.method_id earlier) >> some earlier.chain_state)
    ]
    chain_state' ← apply_blocks chain_state input.block_headers
    some (record { method_id = input.method_id; chain_state = chain_state' })
