-- ===== src/Mmr/Binding.antt =====
-- An inclusion proof binds its leaf: two leaves under one proof are a SHA-256 collision.
use bit_vm.Prelude.{
  ℕ, ◌+◌, ◌≡◌, ◌∙◌, sym, ◌⊎◌, inl, inr, true, Bool-cases, Option, none, some, List, [], ◌∷◌,
  reverse, get_elem?, ◌==◌, bit_and, bytes_eq→eq,
}
use bit_vm.Hashing.{Bytes, hash_pair}
use bit_vm.Hashing.Collision.{Collision, hash_pair-injective_left, hash_pair-injective_right}
use bit_vm.Mmr.Defs.{MmrInclusionProof, MmrGuest, shl_one, is_some_of, climb, verify_proof_guest}

is_some_of-eq :
    (o : Option Bytes) (a b : Bytes) → is_some_of o a ≡ true → is_some_of o b ≡ true → a ≡ b
is_some_of-eq none a b p q = cc
is_some_of-eq (some found) a b p q = sym (bytes_eq→eq found a p) ∙ bytes_eq→eq found b q

module _ (sha256 : Bytes → Bytes) where
  climb-injective :
      (i idx : ℕ) (a b : Bytes) (path : List Bytes)
      → climb sha256 i idx a path ≡ climb sha256 i idx b path
      → (a ≡ b) ⊎ Collision sha256
  unfolding climb
  climb-injective i idx a b [] e = inl e
  climb-injective i idx a b (s ∷ path) e = elim (Bool-cases (bit_and idx (shl_one i) == 0)) [
    | inl left ↦
        elim (climb-injective (i + 1) idx (hash_pair sha256 a s) (hash_pair sha256 b s) path
          (rw left at e)) [ inl same ↦ hash_pair-injective_left sha256 a b s same | inr c ↦ inr c ]
    | inr right ↦
        elim (climb-injective (i + 1) idx (hash_pair sha256 s a) (hash_pair sha256 s b) path
          (rw right at e)) [
            | inl same ↦ hash_pair-injective_right sha256 a b s same
            | inr c ↦ inr c
          ]
  ]

  -- If the guest's `verify_proof` accepts one inclusion proof for two leaves, the leaves are equal,
  -- or two different byte strings with the same SHA-256 hash are at hand.
  pub verify_proof_guest-injective :
      (m : MmrGuest) (proof : MmrInclusionProof) (a b : Bytes)
      → verify_proof_guest sha256 m a proof ≡ true
      → verify_proof_guest sha256 m b proof ≡ true
      → (a ≡ b) ⊎ Collision sha256
  unfolding verify_proof_guest
  verify_proof_guest-injective m proof a b p q =
      climb-injective 0 proof.internal_idx a b proof.inclusion_proof (
        is_some_of-eq (get_elem? (reverse m.subroots) proof.subroot_idx)
          (climb sha256 0 proof.internal_idx a proof.inclusion_proof)
          (climb sha256 0 proof.internal_idx b proof.inclusion_proof) p q)
