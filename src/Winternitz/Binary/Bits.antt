-- ===== src/Winternitz/Binary/Bits.antt =====
-- The loop over the bits hashes as often as its number says, and fails out of range.
use native.Mathlib.Nat.{pow-suc}
use bit_vm.Prelude.{
  ℕ, zero, suc, ◌+◌, ◌-◌, ◌*◌, ◌^◌, ◌≤◌, ◌<◌, ◌≡◌, refl, sym, ap, ◌∙◌, inl, inr, true, false,
  Option, none, some, [], ◌∷◌, arith, ltb, ltb→lt, Bool-cases, ◌>>=◌,
}
use bit_vm.Prelude.Bits.{two-pow_mono}
use bit_vm.Prelude.Int.{ℤ, pos, negsuc, magnitude}
use bit_vm.Script.Run.{◌⨾◌, repeat, run-append}
use bit_vm.Winternitz.Binary.Defs.{search_bit, search_bits}
use bit_vm.Hashing.{Bytes}
use bit_vm.Script.Defs.{
  num, str, Stack, push, op_if, op_endif, op_dup, op_2dup, op_drop, op_swap, op_sub,
  op_greaterthanorequal, op_hash160, Script, State, state, run,
}
use bit_vm.Winternitz.Defs.{hash_times}

ge : (n w : ℕ) → ltb n w ≡ false → w ≤ n
ge n w h = ground arith

module _ (hash160 : Bytes → Bytes) where
  pub hash_times-add :
      (m n : ℕ) (b : Bytes)
      → hash_times hash160 (m + n) b ≡ hash_times hash160 n (hash_times hash160 m b)
  unfolding hash_times
  hash_times-add zero n b = let same : 0 + n ≡ n = omega arith in rw same refl
  hash_times-add (suc m) n b =
      let same : suc m + n ≡ suc (m + n) = omega arith in rw same (hash_times-add m n (hash160 b))

  -- OP_HASH160, repeated in a branch that is taken, and in one that is not.
  hashes_taken :
      (m : ℕ) (b : Bytes) (s t : Stack) (rest : Script)
      → run hash160
          (repeat m (op_hash160 ∷ []) ⨾ rest)
          (record { main = str b ∷ s; alt = t; conds = true ∷ [] })
        ≡ run hash160 rest
            (record { main = str (hash_times hash160 m b) ∷ s; alt = t; conds = true ∷ [] })
  unfolding repeat run hash_times
  hashes_taken zero b s t rest = refl
  hashes_taken (suc m) b s t rest = hashes_taken m (hash160 b) s t rest

  hashes_skipped :
      (m : ℕ) (s t : Stack) (rest : Script)
      → run hash160
          (repeat m (op_hash160 ∷ []) ⨾ rest)
          (record { main = s; alt = t; conds = false ∷ [] })
        ≡ run hash160 rest (record { main = s; alt = t; conds = false ∷ [] })
  unfolding repeat run
  hashes_skipped zero s t rest = refl
  hashes_skipped (suc m) s t rest = hashes_skipped m s t rest

  module _ (b : Bytes) (s t : Stack) where
    abbrev at : ℤ → State
    at z = state (num z ∷ str b ∷ s) t

    abbrev test : ℕ → Script
    test w = push (pos w) ∷ op_2dup ∷ op_greaterthanorequal ∷ op_if ∷ op_sub ∷ op_swap ∷ []

    abbrev rest : Script
    rest = op_swap ∷ op_dup ∷ op_endif ∷ op_drop ∷ []

    test_hit :
        (w n : ℕ)
        → w ≤ n
        → n < 2 ^ 31
        → run hash160 (test w) (at (pos n))
          ≡ some (record { main = str b ∷ num (pos (n - w)) ∷ s; alt = t; conds = true ∷ [] })
    unfolding run
    test_hit w n le small = ground arith

    test_miss :
        (w n : ℕ)
        → n < w
        → w < 2 ^ 31
        → run hash160 (test w) (at (pos n))
          ≡ some
              (record { main = num (pos w) ∷ num (pos n) ∷ str b ∷ s; alt = t; conds = false ∷ [] })
    unfolding run
    test_miss w n lt small = ground arith

    test_negative :
        (w n : ℕ)
        → w < 2 ^ 31
        → n < 2 ^ 31 - 1
        → run hash160 (test w) (at (negsuc n))
          ≡ some (record {
            main = num (pos w) ∷ num (negsuc n) ∷ str b ∷ s;
            alt = t;
            conds = false ∷ [];
          })
    unfolding run
    test_negative w n small lt = ground arith

    test_large : (w : ℕ) (z : ℤ) → 2 ^ 31 ≤ magnitude z → run hash160 (test w) (at z) ≡ none
    unfolding run
    test_large w z le = ground arith

    -- The round, from what its test does.
    round :
        (k : ℕ) (z : ℤ) (o : Option State)
        → run hash160 (test (2 ^ suc k)) (at z) ≡ o
        → run hash160 (search_bit (suc k)) (at z)
          ≡ (o >>= run hash160 (repeat (2 ^ suc k) (op_hash160 ∷ []) ⨾ rest))
    unfolding search_bit
    round k z o e =
        run-append hash160 (test (2 ^ suc k)) (repeat (2 ^ suc k) (op_hash160 ∷ []) ⨾ rest) (at z)
        ∙ ap (λ r. r >>= run hash160 (repeat (2 ^ suc k) (op_hash160 ∷ []) ⨾ rest)) e

    weight_lt : (k : ℕ) → k < 8 → 2 ^ suc k < 2 ^ 31
    weight_lt k h =
        let small : 2 ^ suc k ≤ 2 ^ 9 = two-pow_mono (suc k) 9 (omega arith) in omega arith

    hit :
        (k n : ℕ)
        → 2 ^ suc k ≤ n
        → n < 2 ^ 31
        → run hash160 (search_bit (suc k)) (at (pos n))
          ≡ some (state (num (pos (n - 2 ^ suc k)) ∷ str (hash_times hash160 (2 ^ suc k) b) ∷ s) t)
    unfolding run
    hit k n le small =
        round k (pos n) _ (test_hit (2 ^ suc k) n le small)
        ∙ hashes_taken (2 ^ suc k) b (num (pos (n - 2 ^ suc k)) ∷ s) t rest

    miss :
        (k n : ℕ)
        → k < 8
        → n < 2 ^ suc k
        → run hash160 (search_bit (suc k)) (at (pos n)) ≡ some (at (pos n))
    unfolding run
    miss k n h lt =
        round k (pos n) _ (test_miss (2 ^ suc k) n lt (weight_lt k h))
        ∙ hashes_skipped (2 ^ suc k) (num (pos (2 ^ suc k)) ∷ num (pos n) ∷ str b ∷ s) t rest

    negative :
        (k n : ℕ)
        → k < 8
        → n < 2 ^ 31 - 1
        → run hash160 (search_bit (suc k)) (at (negsuc n)) ≡ some (at (negsuc n))
    unfolding run
    negative k n h lt =
        round k (negsuc n) _ (test_negative (2 ^ suc k) n (weight_lt k h) lt)
        ∙ hashes_skipped (2 ^ suc k) (num (pos (2 ^ suc k)) ∷ num (negsuc n) ∷ str b ∷ s) t rest

    pub too_large :
        (k : ℕ) (z : ℤ) → 2 ^ 31 ≤ magnitude z → run hash160 (search_bit (suc k)) (at z) ≡ none
    too_large k z le = round k z none (test_large (2 ^ suc k) z le)

  after :
      (k : ℕ) (x y : State)
      → run hash160 (search_bit (suc k)) x ≡ some y
      → run hash160 (search_bits (suc (suc k))) x ≡ run hash160 (search_bits (suc k)) y
  unfolding search_bits
  after k x y e =
      run-append hash160 (search_bit (suc k)) (search_bits (suc k)) x
      ∙ ap (λ r. r >>= run hash160 (search_bits (suc k))) e

  -- In range, the loop hashes `n` times.
  search_bits-lt :
      (k n : ℕ) (b : Bytes) (s t : Stack)
      → k < 8
      → n < 2 ^ suc k
      → run hash160 (search_bits (suc k)) (state (num (pos n) ∷ str b ∷ s) t)
        ≡ some (state (str (hash_times hash160 n b) ∷ s) t)
  unfolding search_bits search_bit run hash_times
  search_bits-lt zero zero b s t h lt = refl
  search_bits-lt zero (suc zero) b s t h lt = refl
  search_bits-lt zero (suc (suc n)) b s t h lt = absurd (omega arith)
  search_bits-lt (suc k) n b s t h lt = elim (Bool-cases (ltb n (2 ^ suc k))) [
    | inl below ↦
        after k (at b s t (pos n)) _ (miss b s t k n (omega arith) (ltb→lt n (2 ^ suc k) below))
        ∙ search_bits-lt k n b s t (omega arith) (ltb→lt n (2 ^ suc k) below)
    | inr above ↦
        let le : 2 ^ suc k ≤ n = ge n (2 ^ suc k) above in
        let small : 2 ^ suc (suc k) ≤ 2 ^ 9 = two-pow_mono (suc (suc k)) 9 (omega arith) in
        let twice : 2 ^ suc (suc k) ≡ 2 ^ suc k * 2 = pow-suc 2 (suc k) in
        let whole : 2 ^ suc k + (n - 2 ^ suc k) ≡ n = omega arith in
        after k (at b s t (pos n)) _ (hit b s t k n le (omega arith))
        ∙ search_bits-lt k (n - 2 ^ suc k) (hash_times hash160 (2 ^ suc k) b) s t (omega arith)
            (omega (arith, twice))
        ∙ ap (λ h. some (state (str h ∷ s) t))
            (sym (hash_times-add (2 ^ suc k) (n - 2 ^ suc k) b)
              ∙ ap (λ (m : ℕ). hash_times hash160 m b) whole)
  ]

  -- Out of range, the last OP_IF fails.
  search_bits_ge :
      (k n : ℕ) (b : Bytes) (s t : Stack)
      → k < 8
      → n < 2 ^ 31
      → 2 ^ suc k ≤ n
      → run hash160 (search_bits (suc k)) (state (num (pos n) ∷ str b ∷ s) t) ≡ none
  unfolding search_bits search_bit run
  search_bits_ge zero zero b s t h small le = absurd (omega arith)
  search_bits_ge zero (suc zero) b s t h small le = absurd (omega arith)
  search_bits_ge zero (suc (suc n)) b s t h small le = refl
  search_bits_ge (suc k) n b s t h small le =
      let twice : 2 ^ suc (suc k) ≡ 2 ^ suc k * 2 = pow-suc 2 (suc k) in
      after k (at b s t (pos n)) _ (hit b s t k n (omega (arith, twice)) small)
      ∙ search_bits_ge k (n - 2 ^ suc k) (hash_times hash160 (2 ^ suc k) b) s t (omega arith)
          (omega arith) (omega (arith, twice))

  search_bits_negative :
      (k n : ℕ) (b : Bytes) (s t : Stack)
      → k < 8
      → n < 2 ^ 31 - 1
      → run hash160 (search_bits (suc k)) (state (num (negsuc n) ∷ str b ∷ s) t) ≡ none
  unfolding search_bits search_bit run
  search_bits_negative zero n b s t h small = refl
  search_bits_negative (suc k) n b s t h small =
      after k (at b s t (negsuc n)) _ (negative b s t k n (omega arith) small)
      ∙ search_bits_negative k n b s t (omega arith) small

  -- A number of more than four bytes is no operand.
  search_bits_large :
      (k : ℕ) (z : ℤ) (b : Bytes) (s t : Stack)
      → 2 ^ 31 ≤ magnitude z
      → run hash160 (search_bits (suc (suc k))) (state (num z ∷ str b ∷ s) t) ≡ none
  unfolding search_bits
  search_bits_large k z b s t le =
      run-append hash160 (search_bit (suc k)) (search_bits (suc k)) (state (num z ∷ str b ∷ s) t)
      ∙ ap (λ r. r >>= run hash160 (search_bits (suc k))) (too_large b s t k z le)

  -- The loop over 4 to 8 bits: in range it hashes `n` times, and else it fails.
  pub search_lem :
      (l n : ℕ) (b : Bytes) (s t : Stack)
      → 4 ≤ l
      → l ≤ 8
      → n < 2 ^ l
      → run hash160 (search_bits l) (state (num (pos n) ∷ str b ∷ s) t)
        ≡ some (state (str (hash_times hash160 n b) ∷ s) t)
  search_lem zero n b s t h g lt = absurd (omega arith)
  search_lem (suc k) n b s t h g lt = search_bits-lt k n b s t (omega arith) lt

  pub search_above :
      (l n : ℕ) (b : Bytes) (s t : Stack)
      → 4 ≤ l
      → l ≤ 8
      → 2 ^ l ≤ n
      → run hash160 (search_bits l) (state (num (pos n) ∷ str b ∷ s) t) ≡ none
  search_above zero n b s t h g le = absurd (omega arith)
  search_above (suc zero) n b s t h g le = absurd (omega arith)
  search_above (suc (suc k)) n b s t h g le = elim (Bool-cases (ltb n (2 ^ 31))) [
    | inl small ↦ search_bits_ge (suc k) n b s t (omega arith) (ltb→lt n (2 ^ 31) small) le
    | inr large ↦ search_bits_large k (pos n) b s t (ge n (2 ^ 31) large)
  ]

  pub search_below :
      (l n : ℕ) (b : Bytes) (s t : Stack)
      → 4 ≤ l
      → l ≤ 8
      → n < 2 ^ 31 - 1
      → run hash160 (search_bits l) (state (num (negsuc n) ∷ str b ∷ s) t) ≡ none
  search_below zero n b s t h g lt = absurd (omega arith)
  search_below (suc k) n b s t h g lt = search_bits_negative k n b s t (omega arith) lt
