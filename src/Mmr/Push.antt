-- ===== src/Mmr/Push.antt =====
-- Pushing a leaf onto a tower: what the loops of both `append` functions do.
use bit_vm.Prelude.{
  ℕ, zero, suc, ◌+◌, ◌-◌, ◌/◌, ◌%◌, ◌^◌, ◌<◌, ◌≡◌, refl, sym, ap, subst, ◌∙◌, ◌⊎◌, inl, inr, some,
  List, [], ◌∷◌, ◌++◌, length, get_elem?, length-append, get_elem?-lt, get_elem?-append, ◌>>=◌,
  arith,
}
use bit_vm.Hashing.{Bytes, hash_pair}
use bit_vm.Mmr.Defs.{merge_subroots, pair_levels, grow_top, level_subroots}
use bit_vm.Mmr.Tower.{IsTower, length-hash_pairs, hash_pairs-push_even}
use bit_vm.Mmr.Tower.{hash_pairs-push_odd, grow_top-IsTower}
use native.Mathlib.Nat.{pow-suc}

pub parity : (n : ℕ) → (n % 2 ≡ 0) ⊎ (n % 2 ≡ 1)
parity n = omega arith

-- The node at the end of a list.
pub get_elem?-push : (l : List Bytes) (x : Bytes) → get_elem? (l ++ x ∷ []) (length l) ≡ some x
get_elem?-push [] x = refl
get_elem?-push (a ∷ l) x = get_elem?-push l x

pub level_subroots-even :
    (l : List Bytes) (ls : List (List Bytes))
    → length l % 2 ≡ 0
    → level_subroots (l ∷ ls) ≡ level_subroots ls
unfolding level_subroots
level_subroots-even l ls h = ground arith

pub level_subroots-odd :
    (l : List Bytes) (ls : List (List Bytes)) (x : Bytes)
    → length l % 2 ≡ 1
    → get_elem? l (length l - 1) ≡ some x
    → level_subroots (l ∷ ls) ≡ x ∷ level_subroots ls
unfolding level_subroots
level_subroots-odd l ls x h e = ground arith

pub length-push : (l : List Bytes) (x : Bytes) → length (l ++ x ∷ []) ≡ length l + 1
length-push l x = length-append l (x ∷ [])

-- The subroots after a push that leaves an odd number of nodes.
level_subroots-push :
    (l : List Bytes) (ls : List (List Bytes)) (x : Bytes)
    → length l % 2 ≡ 0
    → level_subroots ((l ++ x ∷ []) ∷ ls) ≡ x ∷ level_subroots ls
level_subroots-push l ls x h =
    level_subroots-odd (l ++ x ∷ []) ls x (omega (arith, length-push l x)) (
      subst (λ k. get_elem? (l ++ x ∷ []) k ≡ some x) (omega (arith, length-push l x))
        (get_elem?-push l x))

module _ (sha256 : Bytes → Bytes) where
  -- What pushing `x` onto the bottom of a tower does on both sides.
  pub record Pushed (x : Bytes) (l : List Bytes) (ls : List (List Bytes)) (fuel : ℕ) : Type 0 where
    pub paired : List (List Bytes)
    pub grown : List (List Bytes)
    pub pairs : pair_levels sha256 (l ++ x ∷ []) ls ≡ some ((l ++ x ∷ []) ∷ paired)
    pub grows : grow_top sha256 (l ++ x ∷ []) paired ≡ some ((l ++ x ∷ []) ∷ grown)
    pub tower : IsTower sha256 (l ++ x ∷ []) grown
    pub merges :
        merge_subroots sha256 fuel (length l) x (level_subroots (l ∷ ls))
        ≡ some (level_subroots ((l ++ x ∷ []) ∷ grown))

  push_even :
      (x : Bytes) (l : List Bytes) (ls : List (List Bytes)) (fuel : ℕ)
      → IsTower sha256 l ls
      → length l % 2 ≡ 0
      → Pushed x l ls (suc fuel)
  push_even x [] [] fuel t h = record {
    paired = [];
    grown = [];
    pairs = unfold pair_levels in refl;
    grows = unfold grow_top in refl;
    tower = omega arith;
    merges = unfold merge_subroots level_subroots in refl;
  }
  push_even x (a ∷ []) [] fuel t h = absurd (omega arith)
  push_even x (a ∷ b ∷ l) [] fuel t h = absurd (omega arith)
  push_even x l (m ∷ ms) fuel t h = record {
    paired = m ∷ ms;
    grown = m ∷ ms;
    pairs = unfold pair_levels in ground (arith, length-push l x);
    grows = unfold grow_top in rw (grow_top-IsTower sha256 m ms t.2);
    tower = (omega (arith, length-push l x), t.1 ∙ sym (hash_pairs-push_even sha256 l x h), t.2);
    merges =
        rw (level_subroots-even l (m ∷ ms) h, level_subroots-push l (m ∷ ms) x h)
          (unfold merge_subroots in ground arith);
  }

  push_odd_top : (x a : Bytes) (fuel : ℕ) → Pushed x (a ∷ []) [] (suc (suc fuel))
  push_odd_top x a fuel = record {
    paired = [];
    grown = (hash_pair sha256 a x ∷ []) ∷ [];
    pairs = unfold pair_levels in refl;
    grows = unfold grow_top in refl;
    tower = (omega arith, refl, omega arith);
    merges = unfold merge_subroots level_subroots in refl;
  }

  pair_levels-even :
      (l m : List Bytes) (ms : List (List Bytes)) (a b : Bytes)
      → length l % 2 ≡ 0
      → get_elem? l (length l - 2) ≡ some a
      → get_elem? l (length l - 1) ≡ some b
      → pair_levels sha256 l (m ∷ ms)
        ≡ (pair_levels sha256 (m ++ hash_pair sha256 a b ∷ []) ms >>= λ rest. some (l ∷ rest))
  unfolding pair_levels
  pair_levels-even l m ms a b h p q = ground arith

  merge_subroots-odd :
      (fuel n : ℕ) (x y : Bytes) (s : List Bytes)
      → n % 2 ≡ 1
      → merge_subroots sha256 (suc fuel) n x (y ∷ s)
        ≡ merge_subroots sha256 fuel (n / 2) (hash_pair sha256 y x) s
  unfolding merge_subroots
  merge_subroots-odd fuel n x y s h = ground arith

  push_odd :
      (x y : Bytes) (l m : List Bytes) (ms : List (List Bytes)) (fuel : ℕ)
      → IsTower sha256 l (m ∷ ms)
      → length l % 2 ≡ 1
      → get_elem? l (length l - 1) ≡ some y
      → Pushed (hash_pair sha256 y x) m ms fuel
      → Pushed x l (m ∷ ms) (suc fuel)
  push_odd x y l m ms fuel t h e p = record {
    paired = (m ++ hash_pair sha256 y x ∷ []) ∷ p.paired;
    grown = (m ++ hash_pair sha256 y x ∷ []) ∷ p.grown;
    pairs = pair_levels-even (l ++ x ∷ []) m ms y x even second first ∙ rw p.pairs;
    grows = unfold grow_top in rw p.grows;
    tower = (
      omega (arith, length-push l x),
      rw t.1 (sym (hash_pairs-push_odd sha256 l x y (length l - 1) (omega arith) e h)),
      p.tower,
    );
    merges =
        rw (level_subroots-odd l (m ∷ ms) y h e, level_subroots-even (l ++ x ∷ []) _ even)
          (merge_subroots-odd fuel (length l) x y (level_subroots (m ∷ ms)) h
            ∙ rw (sym half) p.merges);
  }
    where
      even : length (l ++ x ∷ []) % 2 ≡ 0
      even = omega (arith, length-push l x)

      half : length m ≡ length l / 2
      half = ap length t.1 ∙ length-hash_pairs sha256 l

      first : get_elem? (l ++ x ∷ []) (length (l ++ x ∷ []) - 1) ≡ some x
      first =
          subst (λ k. get_elem? (l ++ x ∷ []) k ≡ some x) (omega (arith, length-push l x))
            (get_elem?-push l x)

      second : get_elem? (l ++ x ∷ []) (length (l ++ x ∷ []) - 2) ≡ some y
      second =
          subst (λ k. get_elem? (l ++ x ∷ []) k ≡ some y) (omega (arith, length-push l x))
            (get_elem?-append l (x ∷ []) (length l - 1) (omega arith) ∙ e)

  -- A push onto a tower of fewer than `2 ^ fuel` nodes.
  pub push_lem :
      (fuel : ℕ) (x : Bytes) (l : List Bytes) (ls : List (List Bytes))
      → IsTower sha256 l ls
      → length l < 2 ^ fuel
      → Pushed x l ls (suc fuel)
  push_lem zero x [] ls t h = push_even x [] ls zero t refl
  push_lem zero x (a ∷ l) ls t h = absurd (omega arith)
  push_lem (suc fuel) x [] [] t h = push_even x [] [] (suc fuel) t refl
  push_lem (suc fuel) x (a ∷ []) [] t h = push_odd_top x a fuel
  push_lem (suc fuel) x (a ∷ b ∷ l) [] t h = absurd (omega arith)
  push_lem (suc fuel) x l (m ∷ ms) t h = elim (parity (length l)) [
    | inl even ↦ push_even x l (m ∷ ms) (suc fuel) t even
    | inr odd ↦
        let (y, e) = get_elem?-lt l (length l - 1) (omega arith) in
        push_odd x y l m ms (suc fuel) t odd e (
          push_lem fuel (hash_pair sha256 y x) m ms t.2
            (omega (arith, ap length t.1, length-hash_pairs sha256 l, pow-suc 2 fuel)))
  ]
