-- ===== src/Mmr/Climb.antt =====
-- The way up from a node: which sibling it meets, in which order the two are hashed, and how the
-- bits of the index steer it.
use bit_vm.Prelude.{
  ℕ, suc, ◌+◌, ◌-◌, ◌*◌, ◌/◌, ◌%◌, ◌^◌, ◌≤◌, ◌<◌, ◌≡◌, refl, ap, subst, ◌∙◌, ◌⊎◌, inl, inr, Bool,
  false, bit_and, some, List, [], ◌∷◌, length, get_elem?, ◌==◌, if◌then◌else◌, ◌&&◌, ==_iff, arith,
}
use bit_vm.Prelude.Bits.{mod-pow_suc, div-pow_suc}
use bit_vm.Hashing.{Bytes, hash_pair}
use bit_vm.Mmr.Defs.{climb, shl_one, proof_path}
use bit_vm.Mmr.Tower.{hash_pairs, get_elem?-hash_pairs}
use bit_vm.Mmr.Push.{parity}
use bit_vm.Mmr.Index.{bit_clear}

abbrev pub sibling_index : ℕ → ℕ
sibling_index i = if i % 2 == 0 then i + 1 else i - 1

-- A node whose sibling is there too.
pub sibling_fits : (n i : ℕ) → i < n → (suc i < n) ⊎ (n % 2 ≡ 0) → sibling_index i < n
sibling_fits n i lt pair = ground arith

pub walk_up :
    (l : List Bytes) (ls : List (List Bytes)) (i : ℕ) (s : Bytes) (path : List Bytes)
    → length l < 2 ^ 32
    → i < length l
    → (suc i < length l) ⊎ (length l % 2 ≡ 0)
    → get_elem? l (sibling_index i) ≡ some s
    → proof_path ls (i / 2) ≡ some path
    → proof_path (l ∷ ls) i ≡ some (s ∷ path)
unfolding proof_path
walk_up l ls i s path fits lt pair at up = rw (not_last, at, up)
  where
    not_last : (i == (length l % 2 ^ 32 + 2 ^ 32 - 1) % 2 ^ 32 && length l % 2 == 1) ≡ false
    not_last = ground arith

pub shl_one_lem : (i : ℕ) → i ≤ 31 → shl_one i ≡ 2 ^ i
shl_one_lem i h = ap (λ (t : ℕ). 2 ^ t) (omega arith)

-- Bit `i + 1` of an index is bit `i` of its half.
pub test-suc :
    (i idx : ℕ)
    → suc i ≤ 31
    → (bit_and idx (shl_one (suc i)) == 0) ≡ (bit_and (idx / 2) (shl_one i) == 0)
test-suc i idx h =
    rw (shl_one_lem (suc i) h, shl_one_lem i (omega arith))
      (rw (bit_clear (suc i) idx, bit_clear i (idx / 2), div-pow_suc idx i) refl)

module _ (sha256 : Bytes → Bytes) where
  -- The order in which a node and its sibling are hashed.
  abbrev pub combine : Bool → Bytes → Bytes → Bytes
  combine left current sibling =
      if left then hash_pair sha256 current sibling else hash_pair sha256 sibling current

  pub climb-suc :
      (i idx : ℕ) (cur : Bytes) (p : List Bytes)
      → i + length p ≤ 31
      → climb sha256 (suc i) idx cur p ≡ climb sha256 i (idx / 2) cur p
  unfolding climb
  climb-suc i idx cur [] h = refl
  climb-suc i idx cur (s ∷ p) h =
      ap (λ b. climb sha256 (suc i + 1) idx (combine b cur s) p) (test-suc i idx (omega arith))
      ∙ ap (λ (k : ℕ). climb sha256 k idx (combine (bit_and (idx / 2) (shl_one i) == 0) cur s) p)
          (omega arith)
      ∙ climb-suc (i + 1) idx (combine (bit_and (idx / 2) (shl_one i) == 0) cur s) p (omega arith)

  pub climb-zero :
      (idx : ℕ) (cur s : Bytes) (p : List Bytes)
      → length p ≤ 31
      → climb sha256 0 idx cur (s ∷ p) ≡ climb sha256 0 (idx / 2) (combine (idx % 2 == 0) cur s) p
  unfolding climb
  climb-zero idx cur s p h =
      ap (λ b. climb sha256 1 idx (combine b cur s) p) (bit_clear 0 idx ∙ low_bit)
      ∙ climb-suc 0 idx (combine (idx % 2 == 0) cur s) p (omega arith)
    where
      low_bit : (idx / 2 ^ 0 % 2 == 0) ≡ (idx % 2 == 0)
      low_bit = ap (λ (t : ℕ). t % 2 == 0) (omega arith)

  pub parent :
      (l : List Bytes) (i : ℕ) (leaf s : Bytes)
      → get_elem? l i ≡ some leaf
      → get_elem? l (sibling_index i) ≡ some s
      → get_elem? (hash_pairs sha256 l) (i / 2) ≡ some (combine (i % 2 == 0) leaf s)
  parent l i leaf s p q = elim (parity i) [
    | inl even ↦
        let left : i ≡ 2 * (i / 2) = omega arith in
        let right : sibling_index i ≡ 2 * (i / 2) + 1 = ground arith in
        rw ((==_iff (i % 2) 0).1 even) (
          get_elem?-hash_pairs sha256 l (i / 2) leaf s
            (subst (λ k. get_elem? l k ≡ some leaf) left p)
            (subst (λ k. get_elem? l k ≡ some s) right q))
    | inr odd ↦
        let right : i ≡ 2 * (i / 2) + 1 = omega arith in
        let left : sibling_index i ≡ 2 * (i / 2) = ground arith in
        let test : (i % 2 == 0) ≡ false = ground arith in
        rw test (
          get_elem?-hash_pairs sha256 l (i / 2) s leaf (subst (λ k. get_elem? l k ≡ some s) left q)
            (subst (λ k. get_elem? l k ≡ some leaf) right p))
  ]

  pub climb_up :
      (i d : ℕ) (leaf s root : Bytes) (path : List Bytes)
      → length path ≤ 31
      → climb sha256 0 (i / 2 % 2 ^ d) (combine (i % 2 == 0) leaf s) path ≡ root
      → climb sha256 0 (i % 2 ^ suc d) leaf (s ∷ path) ≡ root
  climb_up i d leaf s root path short e =
      climb-zero (i % 2 ^ suc d) leaf s path short
      ∙ ap (λ (k : ℕ). climb sha256 0 k (combine (i % 2 ^ suc d % 2 == 0) leaf s) path) rest
      ∙ ap (λ (k : ℕ). climb sha256 0 (i / 2 % 2 ^ d) (combine (k == 0) leaf s) path) low
      ∙ e
    where
      rest : i % 2 ^ suc d / 2 ≡ i / 2 % 2 ^ d
      rest = omega (arith, mod-pow_suc i d)

      low : i % 2 ^ suc d % 2 ≡ i % 2
      low = omega (arith, mod-pow_suc i d)
