-- ===== src/Mmr/Located.antt =====
-- Where a leaf sits in a tower: its mountain, the path to the mountain's root, and the root's place
-- among the subroots.
use native.Mathlib.Nat.{pow-suc, le_refl}
use bit_vm.Prelude.{
  ℕ, zero, suc, ◌+◌, ◌-◌, ◌*◌, ◌/◌, ◌%◌, ◌^◌, ◌≤◌, ◌<◌, ◌≡◌, refl, sym, ap, ◌∙◌, ◌⊎◌, inl, inr,
  bit_xor, some, List, [], ◌∷◌, ◌++◌, length, get_elem?, get_elem?-lt, ◌==◌, arith,
}
use bit_vm.Prelude.Bits.{bit_xor_step}
use bit_vm.Hashing.{Bytes}
use bit_vm.Mmr.Defs.{climb, proof_path, level_subroots, count_subtrees}
use bit_vm.Mmr.Tower.{IsTower, length-hash_pairs}
use bit_vm.Mmr.Push.{level_subroots-odd}
use native.Mathlib.Decide.{dec_lt}
use bit_vm.Mmr.Climb.{walk_up, sibling_index, combine, climb_up, sibling_fits, parent}
use bit_vm.Mmr.Count.{subroots_count, subroots_below, length-level_subroots}
use bit_vm.Mmr.Index.{count_subtrees-suc, count_subtrees-zero_step, bit_xor_self}
use bit_vm.Prelude.Bits.{two-pow_mono}

module _ (sha256 : Bytes → Bytes) where
  -- Where the leaf or node `i` of a tower's bottom level sits: the mountain of height `depth`
  -- whose root is `root`, and the path up to it.
  pub record Located (l : List Bytes) (ls : List (List Bytes)) (i : ℕ) : Type 0 where
    pub depth : ℕ
    pub path : List Bytes
    pub root : Bytes
    pub before : List Bytes
    pub after : List Bytes
    pub walks : proof_path (l ∷ ls) i ≡ some path
    pub deep : length path ≡ depth
    pub inside : 2 ^ depth ≤ length l
    pub xor_low : 2 ^ depth ≤ bit_xor (length l) i
    pub xor_high : bit_xor (length l) i < 2 ^ suc depth
    pub climbs :
        (leaf : Bytes) → get_elem? l i ≡ some leaf → climb sha256 0 (i % 2 ^ depth) leaf path ≡ root
    pub subroots : level_subroots (l ∷ ls) ≡ before ++ root ∷ after
    pub counted :
        (r : ℕ)
        → length l < 2 ^ (suc depth + r)
        → length after ≡ count_subtrees r (suc depth) (length l)

  -- The node is its mountain's root.
  Located-here :
      (l : List Bytes) (ls : List (List Bytes)) (i : ℕ)
      → IsTower sha256 l ls
      → length l < 2 ^ 32
      → suc i ≡ length l
      → length l % 2 ≡ 1
      → Located l ls i
  Located-here l ls i t fits e odd =
      let (x, at) = get_elem?-lt l (length l - 1) (omega arith) in
      record {
        depth = 0;
        path = [];
        root = x;
        before = [];
        after = level_subroots ls;
        walks = unfold proof_path in ground arith;
        deep = refl;
        inside = omega arith;
        xor_low = omega (arith, xor_one);
        xor_high = omega (arith, xor_one);
        climbs = λ leaf at'. unfold climb in cc (ap (get_elem? l) last_index);
        subroots = level_subroots-odd l ls x odd at;
        counted = λ r h. omega (
          arith,
          length-level_subroots sha256 (suc r) l ls t (omega (arith, h, shift r)),
          subroots_count l ls,
          count_subtrees-zero_step r (length l),
          count_subtrees-suc r 0 (length l),
        );
      }
    where
      last_index : i ≡ length l - 1
      last_index = omega arith

      halves : bit_xor (length l / 2) (i / 2) ≡ 0
      halves = ap (bit_xor (length l / 2)) (omega arith) ∙ bit_xor_self _ (length l / 2) (le_refl _)

      xor_one : bit_xor (length l) i ≡ 1
      xor_one = omega (arith, bit_xor_step (length l) i, halves)

      shift : (r : ℕ) → 2 ^ (1 + r) ≡ 2 ^ suc r
      shift r = ap (λ (t : ℕ). 2 ^ t) (omega arith)

  -- The node lies under node `i / 2` of the level above.
  Located-below :
      (l m : List Bytes) (ms : List (List Bytes)) (i : ℕ)
      → IsTower sha256 l (m ∷ ms)
      → length l < 2 ^ 32
      → i < length l
      → (suc i < length l) ⊎ (length l % 2 ≡ 0)
      → (p : Located m ms (i / 2)) → p.depth ≤ 31
      → Located l (m ∷ ms) i
  Located-below l m ms i t fits lt pair p shallow =
      let (s, at) = get_elem?-lt l (sibling_index i) (sibling_fits (length l) i lt pair) in
      let (before, subroots) = subroots_below l (m ∷ ms) p.before p.after p.root p.subroots in
      record {
        depth = suc p.depth;
        path = s ∷ p.path;
        root = p.root;
        before = before;
        after = p.after;
        walks = walk_up l (m ∷ ms) i s p.path fits lt pair at p.walks;
        deep = ap suc p.deep;
        inside = omega (arith, p.inside, half, pow-suc 2 p.depth);
        xor_low = omega (arith, p.xor_low, xor_half, pow-suc 2 p.depth);
        xor_high = omega (arith, p.xor_high, xor_half, pow-suc 2 (suc p.depth));
        climbs = λ leaf at'.
            climb_up sha256 i p.depth leaf s p.root p.path (omega (arith, p.deep)) (
              p.climbs (combine sha256 (i % 2 == 0) leaf s)
                (rw t.1 (parent sha256 l i leaf s at' at)));
        subroots = subroots;
        counted = λ r h.
            p.counted r (omega (arith, h, shift r, half))
            ∙ ap (count_subtrees r (suc p.depth)) half
            ∙ sym (count_subtrees-suc r (suc p.depth) (length l));
      }
    where
      half : length m ≡ length l / 2
      half = ap length t.1 ∙ length-hash_pairs sha256 l

      xor_half : bit_xor (length l) i ≡ bit_xor (length m) (i / 2) * 2 + (length l % 2 + i % 2) % 2
      xor_half = rw half (bit_xor_step (length l) i)

      shift : (r : ℕ) → 2 ^ (suc (suc p.depth) + r) ≡ 2 ^ (suc p.depth + r) * 2
      shift r = ap (λ (t : ℕ). 2 ^ t) (omega arith) ∙ pow-suc 2 (suc p.depth + r)

  depth_lt : (d w n : ℕ) → 2 ^ d ≤ n → n < 2 ^ w → d < w
  depth_lt d w n lo hi = elim (dec_lt d w) [
    | yes h ↦ h
    | no h ↦ absurd (omega (arith, two-pow_mono w d (omega arith)))
  ]

  -- Every leaf is located.
  pub located :
      (w : ℕ) (l : List Bytes) (ls : List (List Bytes)) (i : ℕ)
      → w ≤ 32
      → IsTower sha256 l ls
      → length l < 2 ^ w
      → i < length l
      → Located l ls i
  located w l [] i fits t h lt =
      Located-here l [] i t (omega (arith, two-pow_mono w 32)) (omega arith) (omega arith)
  located zero l (m ∷ ms) i fits t h lt = absurd (omega arith)
  located (suc w) l (m ∷ ms) i fits t h lt = elim (last_or_not (length l) i lt) [
    | inl here ↦ Located-here l (m ∷ ms) i t small here.0 here.1
    | inr pair ↦
        let below : length m < 2 ^ w = omega (arith, half, pow-suc 2 w) in
        let p = located w m ms (i / 2) (omega arith) t.2 below (omega (arith, half)) in
        Located-below l m ms i t small lt pair p
          (omega (arith, depth_lt p.depth w (length m) p.inside below))
  ]
    where
      half : length m ≡ length l / 2
      half = ap length t.1 ∙ length-hash_pairs sha256 l

      small : length l < 2 ^ 32
      small = omega (arith, two-pow_mono (suc w) 32 fits)

      last_or_not : (n i : ℕ) → i < n → ((suc i ≡ n) × (n % 2 ≡ 1)) ⊎ ((suc i < n) ⊎ (n % 2 ≡ 0))
      last_or_not n i lt = ground arith
