-- ===== src/FinalSpv/Merkle.antt =====
-- final-spv/src/merkle_tree.rs: `BitcoinMerkleTree` and `BlockInclusionProof`.
use bit_vm.Prelude.{
  ℕ, zero, suc, ◌+◌, ◌-◌, ◌/◌, ◌%◌, Bool, Option, none, some, List, [], ◌∷◌, ◌++◌, length,
  get_elem?, ltb, ◌==◌, if◌then◌else◌, ◌>>=◌, ◌>>◌, assert, bytes_eq, not,
}
use bit_vm.Hashing.{Bytes, calculate_sha256, calculate_double_sha256}

pub record BitcoinMerkleTree : Type 0 where
  pub nodes : List (List Bytes)

pub record BlockInclusionProof : Type 0 where
  pub idx : ℕ
  pub merkle_proof : List Bytes

-- One round of the `while` loop of a construction: the level above `level`, where `node` hashes
-- two children. Two equal children of a pair are a panic; an odd node at the end is its own sibling.
unfoldable pub next_level : (Bytes → Bytes → Bytes) → List Bytes → Option (List Bytes)
next_level node [] = some []
next_level node (a ∷ []) = some (node a a ∷ [])
next_level node (a ∷ b ∷ rest) = do
  assert (not (bytes_eq a b))
  above ← next_level node rest
  some (node a b ∷ above)

-- The `while prev_level_size > 1` loop, on fuel: a level and those above it.
unfoldable pub build_levels : (Bytes → Bytes → Bytes) → ℕ → List Bytes → Option (List (List Bytes))
build_levels node zero level = none
build_levels node (suc fuel) level =
    if ltb 1 (length level)
    then (do
      next ← next_level node level
      above ← build_levels node fuel next
      some (level ∷ above))
    else some (level ∷ [])

-- A level of `n` nodes needs fewer than `n + 1` rounds.
unfoldable pub build_tree : (Bytes → Bytes → Bytes) → List Bytes → Option BitcoinMerkleTree
unfolding build_levels
build_tree node leaves =
    if length leaves == 1
    then some (record { nodes = leaves ∷ [] })
    else (build_levels node (suc (length leaves)) leaves >>= λ nodes.
        some (record { nodes = nodes }))

-- `nodes[nodes.len() - 1][0]`
unfoldable pub top_node : List (List Bytes) → Option Bytes
top_node [] = none
top_node (level ∷ []) = get_elem? level 0
top_node (level ∷ next ∷ above) = top_node (next ∷ above)

unfoldable pub root : BitcoinMerkleTree → Option Bytes
unfolding top_node
root t = top_node t.nodes

-- The loop of `get_idx_path` from one level upwards.
unfoldable pub path_from : List (List Bytes) → ℕ → Option (List Bytes)
path_from [] i = some []
path_from (level ∷ []) i = some []
path_from (level ∷ next ∷ above) i = do
  sibling ←
      get_elem? level (if i % 2 == 1 then i - 1 else if length level - 1 == i then i else i + 1)
  rest ← path_from (next ∷ above) (i / 2)
  some (sibling ∷ rest)

unfoldable pub get_idx_path : BitcoinMerkleTree → ℕ → Option (List Bytes)
unfolding path_from
get_idx_path t index = elim t.nodes [
  | [] ↦ none
  | leaves ∷ above ↦ assert (ltb index (length leaves)) >> path_from (leaves ∷ above) index
]

unfoldable pub generate_proof : BitcoinMerkleTree → ℕ → Option BlockInclusionProof
unfolding get_idx_path
generate_proof t idx = do
  path ← get_idx_path t idx
  some (record { idx = idx; merkle_proof = path })

module _ (sha256 : Bytes → Bytes) where
  -- The parent of two nodes of a Bitcoin Merkle tree.
  unfoldable pub parent_node : Bytes → Bytes → Bytes
  parent_node a b = calculate_double_sha256 sha256 (a ++ b)

  -- The parent of two nodes of a mid-state tree.
  unfoldable pub mid_state_node : Bytes → Bytes → Bytes
  mid_state_node a b =
      calculate_sha256 sha256 (calculate_sha256 sha256 a ++ calculate_sha256 sha256 b)

  -- `BitcoinMerkleTree::new`
  unfoldable pub new : List Bytes → Option BitcoinMerkleTree
  unfolding build_tree
  new transactions = build_tree parent_node transactions

  -- `BitcoinMerkleTree::new_mid_state`, over the transactions' `mid_state_txid`s.
  unfoldable pub new_mid_state : List Bytes → Option BitcoinMerkleTree
  unfolding build_tree
  new_mid_state mid_state_txids = build_tree mid_state_node mid_state_txids

  -- The loop of `get_root`.
  unfoldable pub climb : ℕ → Bytes → List Bytes → Bytes
  climb index combined_hash [] = combined_hash
  climb index combined_hash (sibling ∷ siblings) =
      let processed_sibling_hash = calculate_sha256 sha256 sibling in
      climb (index / 2)
        (if index % 2 == 0
          then calculate_double_sha256 sha256 (combined_hash ++ processed_sibling_hash)
          else calculate_double_sha256 sha256 (processed_sibling_hash ++ combined_hash))
        siblings

  unfoldable pub get_root : BlockInclusionProof → Bytes → Bytes
  unfolding climb
  get_root p txid = climb p.idx txid p.merkle_proof

  unfoldable pub calculate_root_with_merkle_proof : Bytes → BlockInclusionProof → Bytes
  unfolding get_root
  calculate_root_with_merkle_proof mid_state_txid inclusion_proof =
      get_root inclusion_proof mid_state_txid

  unfoldable pub verify_merkle_proof : Bytes → BlockInclusionProof → Bytes → Bool
  unfolding get_root
  verify_merkle_proof mid_state_txid inclusion_proof expected =
      bytes_eq (get_root inclusion_proof mid_state_txid) expected
