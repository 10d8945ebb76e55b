-- ===== src/FinalSpv/Inclusion.antt =====
-- A proof from the mid-state tree leads from a txid to the root of the Bitcoin Merkle tree.
use bit_vm.Prelude.{
  ℕ, suc, ◌<◌, ◌≡◌, refl, ap, ◌∙◌, sym, true, false, ltb, ◌==◌, some, some_inj, List, [], ◌∷◌, map,
  length, get_elem?, ◌>>=◌, >>=-eq-some, subst, arith,
}
use bit_vm.Hashing.{Bytes}
use bit_vm.FinalSpv.Merkle.{
  BitcoinMerkleTree, BlockInclusionProof, build_levels, build_tree, top_node, root, path_from,
  get_idx_path, generate_proof, parent_node, mid_state_node, new, new_mid_state, get_root,
}
use bit_vm.FinalSpv.Levels.{hashes, levels}

module _ (sha256 : Bytes → Bytes) where
  length-hashes : (l : List Bytes) → length (hashes sha256 l) ≡ length l
  length-hashes [] = refl
  length-hashes (x ∷ l) = ap suc (length-hashes l)

  -- `build_tree` of a list with entries is the loop of levels, also at length one.
  build_tree-levels :
      (node : Bytes → Bytes → Bytes) (l : List Bytes)
      → 0 < length l
      → build_tree node l
        ≡ (build_levels node (suc (length l)) l >>= λ nodes. some (record { nodes = nodes }))
  unfolding build_tree build_levels
  build_tree-levels node [] h = absurd (omega arith)
  build_tree-levels node (a ∷ []) h = refl
  build_tree-levels node (a ∷ b ∷ l) h =
      let test : (length (a ∷ b ∷ l) == 1) ≡ false = ground arith in rw test

  generate_proof_lem :
      (l : List Bytes) (mid : List (List Bytes)) (i : ℕ) (path : List Bytes)
      → i < length l
      → path_from (l ∷ mid) i ≡ some path
      → generate_proof (record { nodes = l ∷ mid }) i
        ≡ some (record { idx = i; merkle_proof = path })
  unfolding generate_proof get_idx_path
  generate_proof_lem l mid i path h e =
      let test : ltb i (length l) ≡ true = ground arith in rw (test, e)

  -- For the mid-state txids of a block and the index of one of them: if `new` builds the Bitcoin
  -- Merkle tree of the txids (their hashes) without a panic, then `new_mid_state` builds the
  -- mid-state tree, `generate_proof` gives a proof for the index, `get_root` of that proof and the
  -- txid is the root of the Bitcoin tree, and that root is the hash of the mid-state tree's root.
  pub get_root-generate_proof :
      (mids : List Bytes) (i : ℕ) (bitcoin : BitcoinMerkleTree)
      → i < length mids
      → new sha256 (map sha256 mids) ≡ some bitcoin
      → (mid : BitcoinMerkleTree) × (proof : BlockInclusionProof) × (x top : Bytes) × (new_mid_state
            sha256 mids
          ≡ some mid)
        × (get_elem? mids i ≡ some x)
        × (generate_proof mid i ≡ some proof)
        × (root mid ≡ some top)
        × (root bitcoin ≡ some (sha256 top))
        × (get_root sha256 proof (sha256 x) ≡ sha256 top)
  unfolding new new_mid_state root get_root
  get_root-generate_proof mids i bitcoin lt e =
      let (built, levels_built, e') =
        >>=-eq-some
          (build_levels (parent_node sha256) (suc (length (map sha256 mids))) (map sha256 mids)) _
          (sym (
              build_tree-levels (parent_node sha256) (map sha256 mids)
                (omega (arith, length-hashes mids)))
            ∙ e) in
      let (mid, mid_built, m, _) = levels sha256 (suc (length mids)) mids built (omega arith) (
        subst (λ (k : ℕ). build_levels (parent_node sha256) (suc k) (map sha256 mids) ≡ some built)
          (length-hashes mids) levels_built) in
      let (path, x, walks, at, climbs) = m.paths i lt in
      (
        record { nodes = mids ∷ mid },
        record { idx = i; merkle_proof = path },
        x,
        m.top,
        build_tree-levels (mid_state_node sha256) mids (omega arith) ∙ rw mid_built,
        at,
        generate_proof_lem mids mid i path lt walks,
        m.mid_top,
        ap (λ (t : BitcoinMerkleTree). top_node t.nodes) (sym (some_inj e')) ∙ m.bitcoin_top,
        climbs,
      )
