-- ===== src/Tests/Ranges.antt =====
-- The mountain ranges on concrete leaves.
use bit_vm.Prelude.{refl, ◌⊎◌, replicate, ◌≡◌, true, some, List, [], ◌∷◌, get_elem?, reverse, arith}
use bit_vm.Hashing.Collision.{Collision}
use bit_vm.Mmr.Binding.{verify_proof_guest-injective}
use bit_vm.Hashing.{Bytes, hash_pair}
use bit_vm.Mmr.Defs.{
  climb, MmrInclusionProof, MmrGuest, MmrNative, new_guest, new_native, get_subroots,
  generate_proof, verify_proof_native, verify_proof_guest,
}
use bit_vm.Mmr.Append.{append_all_native, append_all_guest, append_crosscheck}
use bit_vm.Mmr.Inclusion.{generate_proof-verify_proof}
use bit_vm.Tests.Reference.{toy_sha256}

abbrev leaves : List Bytes
leaves = (1 ∷ []) ∷ (2 ∷ []) ∷ (3 ∷ []) ∷ (4 ∷ []) ∷ (5 ∷ []) ∷ []

append_crosscheck_example :
    (n : MmrNative) × (g : MmrGuest) × (append_all_native toy_sha256 new_native leaves ≡ some n)
    × (append_all_guest toy_sha256 new_guest leaves ≡ some g)
    × (get_elem? n.nodes 0 ≡ some leaves)
    × (g.size ≡ 5)
    × (get_subroots n ≡ reverse g.subroots)
append_crosscheck_example = append_crosscheck toy_sha256 leaves (omega arith)

generate_proof-verify_proof_example :
    (n : MmrNative) × (g : MmrGuest) × (leaf : Bytes) × (proof : MmrInclusionProof)
    × (append_all_native toy_sha256 new_native leaves ≡ some n)
    × (append_all_guest toy_sha256 new_guest leaves ≡ some g)
    × (get_elem? leaves 2 ≡ some leaf)
    × (generate_proof n 2 ≡ some (leaf, proof))
    × (verify_proof_native toy_sha256 n leaf proof ≡ some true)
    × (verify_proof_guest toy_sha256 g leaf proof ≡ true)
generate_proof-verify_proof_example =
    generate_proof-verify_proof toy_sha256 leaves 2 (omega arith) (omega arith)

-- The toy hash adds bytes, so a leaf with a zero in front passes under the same proof.
abbrev small_range : MmrGuest
small_range = record { subroots = (3 ∷ replicate 31 0) ∷ []; size = 2 }

abbrev small_proof : MmrInclusionProof
small_proof = record { subroot_idx = 0; internal_idx = 0; inclusion_proof = (2 ∷ []) ∷ [] }

abbrev one_leaf : Bytes
one_leaf = 1 ∷ []

abbrev other_leaf : Bytes
other_leaf = 0 ∷ 1 ∷ []

one_accepted : verify_proof_guest toy_sha256 small_range one_leaf small_proof ≡ true
unfolding verify_proof_guest climb hash_pair
one_accepted = refl

other_accepted : verify_proof_guest toy_sha256 small_range other_leaf small_proof ≡ true
unfolding verify_proof_guest climb hash_pair
other_accepted = refl

verify_proof_guest-injective_example : (one_leaf ≡ other_leaf) ⊎ Collision toy_sha256
verify_proof_guest-injective_example =
    verify_proof_guest-injective toy_sha256 small_range small_proof one_leaf other_leaf one_accepted
      other_accepted
