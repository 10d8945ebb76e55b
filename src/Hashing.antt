-- ===== src/Hashing.antt =====
-- header-chain/src/utils.rs and final-spv/src/utils.rs (the same three functions): what the
-- circuits hash. SHA-256 itself is the crate sha2, so it is an argument here.
pub mod Collision
use bit_vm.Prelude.{ℕ, List, ◌++◌}

abbrev pub Bytes : Type 0
Bytes = List ℕ

module _ (sha256 : Bytes → Bytes) where
  unfoldable pub calculate_sha256 : Bytes → Bytes
  calculate_sha256 input = sha256 input

  unfoldable pub calculate_double_sha256 : Bytes → Bytes
  calculate_double_sha256 input = sha256 (sha256 input)

  -- The hasher is updated with `left`, then with `right`.
  unfoldable pub hash_pair : Bytes → Bytes → Bytes
  hash_pair left right = sha256 (left ++ right)
