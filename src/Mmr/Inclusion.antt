-- ===== src/Mmr/Inclusion.antt =====
-- A proof that `generate_proof` gives is accepted by both `verify_proof`s.
use bit_vm.Prelude.{
  ℕ, zero, suc, ◌+◌, ◌-◌, ◌%◌, ◌^◌, ◌≤◌, ◌<◌, ◌≡◌, refl, sym, ap, ap₂, subst, ◌∙◌, true, false,
  bit_and, bit_xor, some, List, [], ◌∷◌, ◌++◌, reverse, length, get_elem?, get_elem?-lt,
  length-append, leb, ◌==◌, ◌||◌, arith, bytes_eq, bytes_eq_refl,
}
use bit_vm.Hashing.{Bytes}
use bit_vm.Mmr.Defs.{
  is_some_of, climb, MmrInclusionProof, MmrGuest, MmrNative, shl_one, level_subroots,
  count_subtrees, get_helpers_from_index, generate_proof, verify_proof_native, verify_proof_guest,
  new_native, new_guest,
}
use bit_vm.Mmr.Append.{append_all_native, append_all_guest, built-Agrees}
use native.Mathlib.Decide.{dec_lt}
use mathlib.Core.List.{reverse-cons, reverse-append, append_assoc}
use bit_vm.Prelude.Bits.{bit_and_mask}
use bit_vm.Mmr.Climb.{shl_one_lem}
use bit_vm.Mmr.Located.{Located, located}
use native.Mathlib.Decide.{dec_lt}
use bit_vm.Prelude.Bits.{leading_zeros_lem, two-pow_mono}

-- The highest bit of a number.
high_bit : (w n : ℕ) → 0 < n → n < 2 ^ w → (t : ℕ) × (t < w) × (2 ^ t ≤ n) × (n < 2 ^ suc t)
high_bit zero n pos h = absurd (omega arith)
high_bit (suc w) n pos h = elim (dec_lt n (2 ^ w)) [
  | yes low ↦ let (t, lt, lo, hi) = high_bit w n pos low in (t, omega arith, lo, hi)
  | no high ↦ (w, omega arith, omega arith, h)
]

-- The shifts and counts of `get_helpers_from_index`, from the highest bits of the two numbers.
helpers_lem :
    (n i d t : ℕ)
    → n < 2 ^ 32
    → d ≤ t
    → t < 32
    → 2 ^ d ≤ bit_xor n i
    → bit_xor n i < 2 ^ suc d
    → 2 ^ t ≤ n
    → n < 2 ^ suc t
    → get_helpers_from_index n i ≡ (count_subtrees (t - d) (suc d) n, i % 2 ^ d)
unfolding get_helpers_from_index
helpers_lem n i d t fits deep top lo hi lo' hi' =
    rw (same, leading_zeros_lem 32 d (bit_xor n i) (omega arith) lo hi)
      (rw (leading_zeros_lem 32 t n top lo' hi', back d (omega arith), back t (omega arith)) parts)
  where
    same : n % 2 ^ 32 ≡ n
    same = omega arith

    back : (k : ℕ) → k ≤ 31 → 31 - (32 - 1 - k) ≡ k
    back k h = omega arith

    parts :
        ◌≡◌ {A = ℕ × ℕ}
          (count_subtrees (t - d) (d + 1) n, bit_and i (shl_one d - 1))
          (count_subtrees (t - d) (suc d) n, i % 2 ^ d)
    parts =
        ap₂ (λ a b. (a, b)) (ap (λ (k : ℕ). count_subtrees (t - d) k n) (omega arith))
          (ap (λ (k : ℕ). bit_and i (k - 1)) (shl_one_lem d (omega arith)) ∙ bit_and_mask d i)

length-reverse : (l : List Bytes) → length (reverse l) ≡ length l
length-reverse [] = refl
length-reverse (x ∷ l) =
    ap length (reverse-cons x l)
    ∙ omega (arith, length-append (reverse l) (x ∷ []), length-reverse l)

get_elem?-middle : (l r : List Bytes) (x : Bytes) → get_elem? (l ++ x ∷ r) (length l) ≡ some x
get_elem?-middle [] r x = refl
get_elem?-middle (a ∷ l) r x = get_elem?-middle l r x

-- The root of a leaf's mountain is found at the index that the proof names.
get_elem?-subroots :
    (before after : List Bytes) (root : Bytes)
    → get_elem? (reverse (before ++ root ∷ after)) (length after) ≡ some root
get_elem?-subroots before after root =
    rw (reverse-append before (root ∷ after), reverse-cons root after, append_assoc)
      (subst (λ k. get_elem? (reverse after ++ root ∷ reverse before) k ≡ some root)
        (length-reverse after) (get_elem?-middle (reverse after) (reverse before) root))

depth_le : (d t n : ℕ) → 2 ^ d ≤ n → n < 2 ^ suc t → d ≤ t
depth_le d t n lo hi = elim (dec_lt d (suc t)) [
  | yes h ↦ omega arith
  | no h ↦ absurd (omega (arith, two-pow_mono (suc t) d (omega arith)))
]

module _ (sha256 : Bytes → Bytes) where
  -- What `generate_proof` returns for a located leaf.
  abbrev proof_of :
      {l : List Bytes} {ls : List (List Bytes)} {i : ℕ} → Located sha256 l ls i → MmrInclusionProof
  proof_of {i} p = record {
    subroot_idx = length p.after;
    internal_idx = i % 2 ^ p.depth;
    inclusion_proof = p.path;
  }

  generate_proof_lem :
      (l : List Bytes) (ls : List (List Bytes)) (i : ℕ) (leaf : Bytes) (p : Located sha256 l ls i)
      → length l < 2 ^ 32
      → i < length l
      → get_elem? l i ≡ some leaf
      → generate_proof (record { nodes = l ∷ ls }) i ≡ some (leaf, proof_of p)
  unfolding generate_proof
  generate_proof_lem l ls i leaf p fits lt at =
      let (t, top, lo, hi) = high_bit 32 (length l) (omega arith) fits in
      let guard : (length l == 0 || leb (length l) i) ≡ false = ground arith in
      let deep : p.depth ≤ t = depth_le p.depth t (length l) p.inside hi in
      rw
        (
          guard,
          p.walks,
          at,
          helpers_lem (length l) i p.depth t fits deep top p.xor_low p.xor_high lo hi,
          sym (p.counted (t - p.depth) (subst (λ k. length l < 2 ^ k) (omega arith) hi)),
        )
        refl

  verify_native_lem :
      (l : List Bytes) (ls : List (List Bytes)) (i : ℕ) (leaf : Bytes) (p : Located sha256 l ls i)
      → get_elem? l i ≡ some leaf
      → verify_proof_native sha256 (record { nodes = l ∷ ls }) leaf (proof_of p) ≡ some true
  unfolding verify_proof_native
  verify_native_lem l ls i leaf p at =
      rw (p.subroots, get_elem?-subroots p.before p.after p.root, p.climbs leaf at)
        (ap some (bytes_eq_refl p.root))

  verify_guest_lem :
      (l : List Bytes) (ls : List (List Bytes)) (i : ℕ) (leaf : Bytes) (p : Located sha256 l ls i)
      (g : MmrGuest)
      → g.subroots ≡ level_subroots (l ∷ ls)
      → get_elem? l i ≡ some leaf
      → verify_proof_guest sha256 g leaf (proof_of p) ≡ true
  unfolding verify_proof_guest
  verify_guest_lem l ls i leaf p g same at =
      let climbed = climb sha256 0 (i % 2 ^ p.depth) leaf p.path in
      let found : get_elem? (reverse g.subroots) (length p.after) ≡ some p.root =
        ap (λ s. get_elem? (reverse s) (length p.after)) (same ∙ p.subroots)
        ∙ get_elem?-subroots p.before p.after p.root in
      ap (λ o. is_some_of o climbed) found
      ∙ ap (bytes_eq p.root) (p.climbs leaf at)
      ∙ bytes_eq_refl p.root

  -- Fill both mountain ranges with any fewer than 2^32 leaves, and take any index below their
  -- number: `generate_proof` returns the leaf at that index with a proof, and both the native and
  -- the guest `verify_proof` accept them.
  pub generate_proof-verify_proof :
      (xs : List Bytes) (i : ℕ)
      → length xs < 2 ^ 32
      → i < length xs
      → (n : MmrNative) × (g : MmrGuest) × (leaf : Bytes) × (proof : MmrInclusionProof)
        × (append_all_native sha256 new_native xs ≡ some n)
        × (append_all_guest sha256 new_guest xs ≡ some g)
        × (get_elem? xs i ≡ some leaf)
        × (generate_proof n i ≡ some (leaf, proof))
        × (verify_proof_native sha256 n leaf proof ≡ some true)
        × (verify_proof_guest sha256 g leaf proof ≡ true)
  generate_proof-verify_proof xs i fits lt =
      let (n, g, built_n, built_g, a) = built-Agrees sha256 xs fits in
      let (leaf, at) = get_elem?-lt xs i lt in
      let p = located sha256 32 xs a.above i (omega arith) a.tower fits lt in
      (
        n,
        g,
        leaf,
        proof_of p,
        built_n,
        built_g,
        at,
        rw a.nodes (generate_proof_lem xs a.above i leaf p fits lt at),
        rw a.nodes (verify_native_lem xs a.above i leaf p at),
        verify_guest_lem xs a.above i leaf p g a.same_subroots at,
      )
