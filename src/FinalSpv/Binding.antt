-- ===== src/FinalSpv/Binding.antt =====
-- A Merkle path binds its leaf: two ids under one path and root are a SHA-256 collision.
use bit_vm.Prelude.{
  ℕ, ◌/◌, ◌%◌, ◌≡◌, ◌∙◌, sym, ◌⊎◌, inl, inr, true, Bool-cases, List, [], ◌∷◌, ◌++◌, ◌==◌,
  bytes_eq→eq,
}
use bit_vm.Hashing.{Bytes, calculate_sha256, calculate_double_sha256}
use bit_vm.Hashing.Collision.{
  Collision, double_sha256-injective_left, double_sha256-injective_right,
}
use bit_vm.FinalSpv.Merkle.{BlockInclusionProof, climb, get_root, verify_merkle_proof}

module _ (sha256 : Bytes → Bytes) where
  climb-injective :
      (index : ℕ) (a b : Bytes) (path : List Bytes)
      → climb sha256 index a path ≡ climb sha256 index b path
      → (a ≡ b) ⊎ Collision sha256
  unfolding climb
  climb-injective index a b [] e = inl e
  climb-injective index a b (s ∷ path) e =
      let side : Bytes = calculate_sha256 sha256 s in
      elim (Bool-cases (index % 2 == 0)) [
        | inl left ↦
            elim (climb-injective (index / 2) (calculate_double_sha256 sha256 (a ++ side))
              (calculate_double_sha256 sha256 (b ++ side)) path (rw left at e)) [
                | inl same ↦ double_sha256-injective_left sha256 a b side same
                | inr c ↦ inr c
              ]
        | inr right ↦
            elim (climb-injective (index / 2) (calculate_double_sha256 sha256 (side ++ a))
              (calculate_double_sha256 sha256 (side ++ b)) path (rw right at e)) [
                | inl same ↦ double_sha256-injective_right sha256 a b side same
                | inr c ↦ inr c
              ]
      ]

  -- If `verify_merkle_proof` accepts one inclusion proof and one root for two ids, the ids are
  -- equal, or two different byte strings with the same SHA-256 hash are at hand.
  pub verify_merkle_proof-injective :
      (proof : BlockInclusionProof) (a b r : Bytes)
      → verify_merkle_proof sha256 a proof r ≡ true
      → verify_merkle_proof sha256 b proof r ≡ true
      → (a ≡ b) ⊎ Collision sha256
  unfolding verify_merkle_proof get_root
  verify_merkle_proof-injective proof a b r p q = climb-injective proof.idx a b proof.merkle_proof (
      bytes_eq→eq (climb sha256 proof.idx a proof.merkle_proof) r p
      ∙ sym (bytes_eq→eq (climb sha256 proof.idx b proof.merkle_proof) r q))
