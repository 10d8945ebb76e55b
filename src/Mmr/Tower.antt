-- ===== src/Mmr/Tower.antt =====
-- What the full form keeps true: each level is the level below it, hashed in pairs.
use bit_vm.Prelude.{
  ℕ, zero, suc, ◌+◌, ◌*◌, ◌/◌, ◌%◌, ◌≤◌, ◌<◌, ◌≡◌, refl, ap, subst, some, List, [], ◌∷◌, ◌++◌,
  length, get_elem?, arith,
}
use bit_vm.Hashing.{Bytes, hash_pair}
use bit_vm.Mmr.Defs.{grow_top}

module _ (sha256 : Bytes → Bytes) where
  abbrev pub hash_pairs : List Bytes → List Bytes
  hash_pairs [] = []
  hash_pairs (a ∷ []) = []
  hash_pairs (a ∷ b ∷ rest) = hash_pair sha256 a b ∷ hash_pairs rest

  -- `level` and those above it; the top one has at most one node.
  abbrev pub IsTower : List Bytes → List (List Bytes) → Type 0
  IsTower level [] = length level ≤ 1
  IsTower level (next ∷ above) = (1 < length level) × (next ≡ hash_pairs level) × IsTower next above

  pub length-hash_pairs : (l : List Bytes) → length (hash_pairs l) ≡ length l / 2
  length-hash_pairs [] = refl
  length-hash_pairs (a ∷ []) = refl
  length-hash_pairs (a ∷ b ∷ rest) = omega (arith, length-hash_pairs rest)

  pub hash_pairs-push_even :
      (l : List Bytes) (x : Bytes) → length l % 2 ≡ 0 → hash_pairs (l ++ x ∷ []) ≡ hash_pairs l
  hash_pairs-push_even [] x h = refl
  hash_pairs-push_even (a ∷ []) x h = absurd (omega arith)
  hash_pairs-push_even (a ∷ b ∷ rest) x h =
      ap (λ t. hash_pair sha256 a b ∷ t) (hash_pairs-push_even rest x (omega arith))

  pub hash_pairs-push_odd :
      (l : List Bytes) (x y : Bytes) (i : ℕ)
      → suc i ≡ length l
      → get_elem? l i ≡ some y
      → length l % 2 ≡ 1
      → hash_pairs (l ++ x ∷ []) ≡ hash_pairs l ++ hash_pair sha256 y x ∷ []
  hash_pairs-push_odd [] x y i n e h = absurd (omega arith)
  hash_pairs-push_odd (a ∷ []) x y zero n e h = ap (λ t. hash_pair sha256 t x ∷ []) (cc)
  hash_pairs-push_odd (a ∷ []) x y (suc i) n e h = cc
  hash_pairs-push_odd (a ∷ b ∷ []) x y i n e h = absurd (omega arith)
  hash_pairs-push_odd (a ∷ b ∷ c ∷ rest) x y zero n e h = absurd (omega arith)
  hash_pairs-push_odd (a ∷ b ∷ c ∷ rest) x y (suc zero) n e h = absurd (omega arith)
  hash_pairs-push_odd (a ∷ b ∷ c ∷ rest) x y (suc (suc i)) n e h =
      ap (λ t. hash_pair sha256 a b ∷ t)
        (hash_pairs-push_odd (c ∷ rest) x y i (omega arith) e (omega arith))

  -- The pair of nodes below a node.
  pub get_elem?-hash_pairs :
      (l : List Bytes) (j : ℕ) (a b : Bytes)
      → get_elem? l (2 * j) ≡ some a
      → get_elem? l (2 * j + 1) ≡ some b
      → get_elem? (hash_pairs l) j ≡ some (hash_pair sha256 a b)
  get_elem?-hash_pairs [] j a b p q = cc
  get_elem?-hash_pairs (c ∷ []) j a b p q =
      let odd : 2 * j + 1 ≡ suc (2 * j) = omega arith in
      cc (subst (λ k. get_elem? (c ∷ []) k ≡ some b) odd q)
  get_elem?-hash_pairs (c ∷ d ∷ rest) zero a b p q = cc
  get_elem?-hash_pairs (c ∷ d ∷ rest) (suc j) a b p q =
      let even : 2 * suc j ≡ suc (suc (2 * j)) = omega arith in
      let odd : 2 * suc j + 1 ≡ suc (suc (2 * j + 1)) = omega arith in
      get_elem?-hash_pairs rest j a b (subst (λ k. get_elem? (c ∷ d ∷ rest) k ≡ some a) even p)
        (subst (λ k. get_elem? (c ∷ d ∷ rest) k ≡ some b) odd q)

  -- Nothing grows above a tower.
  pub grow_top-IsTower :
      (level : List Bytes) (above : List (List Bytes))
      → IsTower level above
      → grow_top sha256 level above ≡ some (level ∷ above)
  unfolding grow_top
  grow_top-IsTower level [] h = ground arith
  grow_top-IsTower level (next ∷ above) h = rw (grow_top-IsTower next above h.2)
