-- ===== src/Mmr/Count.antt =====
-- How many subroots there are at a level and above it: one for each set bit of its length.
use native.Mathlib.Nat.{pow-suc}
use bit_vm.Prelude.{
  ℕ, zero, suc, ◌+◌, ◌-◌, ◌/◌, ◌%◌, ◌^◌, ◌<◌, ◌≡◌, refl, sym, ap, ◌∙◌, inl, inr, List, [], ◌∷◌,
  ◌++◌, length, get_elem?-lt, arith,
}
use bit_vm.Hashing.{Bytes}
use bit_vm.Mmr.Defs.{level_subroots, count_subtrees}
use bit_vm.Mmr.Tower.{IsTower, length-hash_pairs}
use bit_vm.Mmr.Push.{parity, level_subroots-even, level_subroots-odd}
use bit_vm.Mmr.Index.{count_subtrees-zero_step, bit_clear}

pub subroots_count :
    (l : List Bytes) (ls : List (List Bytes))
    → length (level_subroots (l ∷ ls)) ≡ length l % 2 + length (level_subroots ls)
subroots_count l ls = elim (parity (length l)) [
  | inl even ↦ rw (level_subroots-even l ls even) (omega arith)
  | inr odd ↦
      let (x, e) = get_elem?-lt l (length l - 1) (omega arith) in
      rw (level_subroots-odd l ls x odd e) (omega arith)
]

pub count_subtrees_nil : (r i : ℕ) → count_subtrees r i 0 ≡ 0
unfolding count_subtrees
count_subtrees_nil zero i = refl
count_subtrees_nil (suc r) i = ground (arith, bit_clear i 0, count_subtrees_nil r (i + 1))

-- A level below only puts subroots in front.
pub subroots_below :
    (l : List Bytes) (ls : List (List Bytes)) (before after : List Bytes) (root : Bytes)
    → level_subroots ls ≡ before ++ root ∷ after
    → (before' : List Bytes) × (level_subroots (l ∷ ls) ≡ before' ++ root ∷ after)
subroots_below l ls before after root e = elim (parity (length l)) [
  | inl even ↦ (before, level_subroots-even l ls even ∙ e)
  | inr odd ↦
      let (x, at) = get_elem?-lt l (length l - 1) (omega arith) in
      (x ∷ before, level_subroots-odd l ls x odd at ∙ ap (λ t. x ∷ t) e)
]

module _ (sha256 : Bytes → Bytes) where
  -- The number of subroots is the number of set bits.
  pub length-level_subroots :
      (r : ℕ) (l : List Bytes) (ls : List (List Bytes))
      → IsTower sha256 l ls
      → length l < 2 ^ r
      → length (level_subroots (l ∷ ls)) ≡ count_subtrees r 0 (length l)
  length-level_subroots r [] [] t h = unfold level_subroots in sym (count_subtrees_nil r 0)
  length-level_subroots zero (a ∷ []) [] t h = absurd (omega arith)
  length-level_subroots (suc r) (a ∷ []) [] t h =
      unfold level_subroots in omega (arith, count_subtrees-zero_step r 1, count_subtrees_nil r 0)
  length-level_subroots r (a ∷ b ∷ l) [] t h = absurd (omega arith)
  length-level_subroots zero l (m ∷ ms) t h = absurd (omega arith)
  length-level_subroots (suc r) l (m ∷ ms) t h =
      let half : length m ≡ length l / 2 = ap length t.1 ∙ length-hash_pairs sha256 l in
      let above = length-level_subroots r m ms t.2 (omega (arith, pow-suc 2 r)) in
      omega (
        arith,
        subroots_count l (m ∷ ms),
        count_subtrees-zero_step r (length l),
        ap (count_subtrees r 0) half,
      )
