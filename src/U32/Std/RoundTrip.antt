-- ===== src/U32/Std/RoundTrip.antt =====
-- `u32_compress`, `u32_uncompress` and their round trip.
use native.Mathlib.Nat.{mod-lt, div-add-mod'}
use bit_vm.Prelude.{
  ℕ, suc, ◌+◌, ◌*◌, ◌/◌, ◌%◌, ◌^◌, ◌<◌, ◌≡◌, refl, sym, ap, ◌∙◌, subst, some, [], ◌∷◌, ◌++◌, arith,
}
use bit_vm.Prelude.Bits.{two-pow_pos}
use bit_vm.Hashing.{Bytes}
use bit_vm.Script.Defs.{num, Stack, op_fromaltstack, op_swap, op_2swap, state, run}
use bit_vm.Script.Run.{◌⨾◌, Runs, run-then}
use bit_vm.U32.Stack.{byte, word_of, words}
use bit_vm.U32.Std.Defs.{byte_of, u32_compress, extract_bits, extract_first, u32_uncompress}
use bit_vm.U32.Std.Compress.{
  as_i32, bits_lem, quotient_lt, extract_first-Runs, extract_bits-Runs, top_byte-Runs,
  shift_in-Runs, sign_in-Runs, split_sign-Runs,
}

module _ (hash160 : Bytes → Bytes) where
  -- `u32_compress` turns a word below 2^32 into the signed number of the same 32 bits.
  pub u32_compress-Runs :
      (v : ℕ) (s t : Stack)
      → v < 2 ^ 32
      → Runs hash160 u32_compress (state (words (v ∷ []) s) t) (state (num (as_i32 v) ∷ s) t)
  unfolding u32_compress
  u32_compress-Runs v s t h =
      subst
        (λ (i : ℕ).
          Runs hash160 u32_compress (state (words (v ∷ []) s) t) (state (num (as_i32 i) ∷ s) t))
        whole
        (run-then hash160 (top_byte-Runs hash160 a b c d s t (omega arith)) (
          run-then hash160
            (shift_in-Runs hash160 (d % 128) c (byte b ∷ byte a ∷ s) u (omega arith) (omega arith))
            (run-then hash160
              (shift_in-Runs hash160 (d % 128 * 256 + c) b (byte a ∷ s) u (omega arith)
                (omega arith))
              (run-then hash160
                (shift_in-Runs hash160 ((d % 128 * 256 + c) * 256 + b) a s u (omega arith)
                  (omega arith))
                (sign_in-Runs hash160 (d / 128) (((d % 128 * 256 + c) * 256 + b) * 256 + a) s t
                  (omega arith) (omega arith))))))
    where
      a : ℕ
      a = byte_of v 0

      b : ℕ
      b = byte_of v 1

      c : ℕ
      c = byte_of v 2

      d : ℕ
      d = byte_of v 3

      u : Stack
      u = byte (d / 128) ∷ t

      whole : d / 128 * 2 ^ 31 + (((d % 128 * 256 + c) * 256 + b) * 256 + a) ≡ v
      whole = omega arith

  -- A byte below 2^(k + 1) whose first bit starts a new element.
  byte_out-Runs :
      (j k n : ℕ) (s t : Stack)
      → k ≡ 7 + j
      → k < 30
      → n < 2 ^ suc k
      → Runs hash160
          (extract_first k ⨾ extract_bits 7 k)
          (state (byte n ∷ s) t)
          (state (byte (n % 2 ^ j) ∷ s) (byte (n / 2 ^ j) ∷ t))
  byte_out-Runs j k n s t e h lt =
      let (low, high) = bits_lem 7 j k n 0 e in
      let split : n / 2 ^ k * 2 ^ k + n % 2 ^ k ≡ n = div-add-mod' n (2 ^ k) in
      let bit : n / 2 ^ k < 2 = quotient_lt n k lt in
      let rest : n % 2 ^ k < 2 ^ k = mod-lt n (two-pow_pos k) in
      let whole : n / 2 ^ k * 2 ^ 7 + n % 2 ^ k / 2 ^ j ≡ n / 2 ^ j = omega (arith, high) in
      record {
        runs =
            ap (λ (i : ℕ). run hash160 (extract_first k ⨾ extract_bits 7 k) (state (byte i ∷ s) t))
              (sym split)
            ∙ (run-then hash160
                (extract_first-Runs hash160 k (n / 2 ^ k) (n % 2 ^ k) s t bit rest h)
                (extract_bits-Runs hash160 7 j k (n % 2 ^ k) (n / 2 ^ k) s t e (omega arith) rest
                  (omega arith))).runs
            ∙ (λ i. some (state (byte (low i) ∷ s) (byte (whole i) ∷ t)));
      }

  -- `u32_uncompress` turns the signed number of 32 bits into the word below 2^32 of the same bits,
  -- -2^31 included.
  pub u32_uncompress-Runs :
      (v : ℕ) (s t : Stack)
      → v < 2 ^ 32
      → Runs hash160 u32_uncompress (state (num (as_i32 v) ∷ s) t) (state (words (v ∷ []) s) t)
  unfolding u32_uncompress run
  u32_uncompress-Runs v s t h =
      subst
        (λ (i : ℕ).
          Runs hash160 u32_uncompress (state (num (as_i32 i) ∷ s) t) (state (words (v ∷ []) s) t))
        whole
        (run-then hash160 (split_sign-Runs hash160 q n s t (omega arith) (omega arith)) (
          run-then hash160
            (extract_bits-Runs hash160 7 24 31 n q s t refl (omega arith) (omega arith)
              (omega arith))
            (run-then hash160
              (byte_out-Runs 16 23 n₁ s (byte (q * 2 ^ 7 + n / 2 ^ 24) ∷ t) refl (omega arith)
                (omega arith))
              (run-then hash160
                (byte_out-Runs 8 15 (n₁ % 2 ^ 16) s
                  (byte (n₁ / 2 ^ 16) ∷ byte (q * 2 ^ 7 + n / 2 ^ 24) ∷ t) refl (omega arith)
                  (omega arith))
                last))))
    where
      q : ℕ
      q = v / 2 ^ 31

      n : ℕ
      n = v % 2 ^ 31

      n₁ : ℕ
      n₁ = n % 2 ^ 24

      whole : q * 2 ^ 31 + n ≡ v
      whole = omega arith

      last :
          Runs hash160
            (op_fromaltstack ∷ op_fromaltstack ∷ op_fromaltstack ∷ op_swap ∷ op_2swap ∷ op_swap
              ∷ [])
            (state
              (byte (n₁ % 2 ^ 16 % 2 ^ 8) ∷ s)
              (byte (n₁ % 2 ^ 16 / 2 ^ 8) ∷ byte (n₁ / 2 ^ 16) ∷ byte (q * 2 ^ 7 + n / 2 ^ 24) ∷ t))
            (state (words (v ∷ []) s) t)
      last = record {
        runs =
            ap (λ w. some (state (w ++ s) t))
              (sym (
                word_of v (n₁ % 2 ^ 16 % 2 ^ 8) (n₁ % 2 ^ 16 / 2 ^ 8) (n₁ / 2 ^ 16)
                  (q * 2 ^ 7 + n / 2 ^ 24) (omega arith) (omega arith) (omega arith) (omega arith)
                  (omega arith)));
      }

  -- Compressing any word below 2^32 and uncompressing it gives the word back.
  pub u32_compress-u32_uncompress :
      (v : ℕ) (s t : Stack)
      → v < 2 ^ 32
      → Runs hash160
          (u32_compress ⨾ u32_uncompress)
          (state (words (v ∷ []) s) t)
          (state (words (v ∷ []) s) t)
  u32_compress-u32_uncompress v s t h =
      run-then hash160 (u32_compress-Runs v s t h) (u32_uncompress-Runs v s t h)
