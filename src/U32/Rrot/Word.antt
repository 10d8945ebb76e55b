-- ===== src/U32/Rrot/Word.antt =====
-- `u32_rrot` rotates a word to the right.
use bit_vm.Prelude.{
  ℕ, ◌+◌, ◌-◌, ◌*◌, ◌/◌, ◌%◌, ◌^◌, ◌<◌, ◌≡◌, refl, sym, ap, ◌∙◌, subst, inl, inr, Option, none,
  some, [], ◌∷◌, ◌++◌, arith,
}
use bit_vm.Hashing.{Bytes}
use bit_vm.Script.Defs.{Stack, Script, state, take_out, run}
use bit_vm.Script.Run.{◌⨾◌, Runs, run-then}
use bit_vm.U32.Stack.{word_of, words, roll, Transforms}
use bit_vm.U32.Rrot.Defs.{u32_rrot16, u32_rrot8, u32_rrot7, specific_optimize, rrot_bits, u32_rrot}
use bit_vm.U32.Rrot.Rotate.{rrot, u32_rrot7-Runs}
use bit_vm.U32.Rrot.Amount.{cases_lem, rrot-rrot, rrot_lt, u32_rrot-general}
use bit_vm.U32.Rrot.General.{rrot_bits-Transforms}

module _ (hash160 : Bytes → Bytes) where
  seven-Runs :
      (v : ℕ) (s t : Stack)
      → v < 2 ^ 32
      → Runs hash160 u32_rrot7 (state (words (v ∷ []) s) t) (state (words (rrot v 7 ∷ []) s) t)
  unfolding rrot
  seven-Runs v s t lt =
      subst (λ (w : Stack). Runs hash160 u32_rrot7 (state (words (v ∷ []) s) t) (state (w ++ s) t))
        (sym (
          word_of (rrot v 7) (v % 256 / 128 + v / 256 % 256 % 128 * 2)
            (v / 256 % 256 / 128 + v / 2 ^ 16 % 256 % 128 * 2)
            (v / 2 ^ 16 % 256 / 128 + v / 2 ^ 24 % 256 % 128 * 2)
            (v / 2 ^ 24 % 256 / 128 + v % 256 % 128 * 2) (omega arith) (omega arith) (omega arith)
            (omega arith) (omega arith)))
        (u32_rrot7-Runs hash160 (v % 256) (v / 256 % 256) (v / 2 ^ 16 % 256) (v / 2 ^ 24 % 256) s t
          (omega arith) (omega arith) (omega arith) (omega arith))

  bytes-Runs :
      (v : ℕ) (s t : Stack)
      → v < 2 ^ 32
      → Runs hash160 u32_rrot8 (state (words (v ∷ []) s) t) (state (words (rrot v 8 ∷ []) s) t)
        × Runs hash160 u32_rrot16 (state (words (v ∷ []) s) t) (state (words (rrot v 16 ∷ []) s) t)
        × Runs hash160 (roll 3) (state (words (v ∷ []) s) t) (state (words (rrot v 24 ∷ []) s) t)
  unfolding rrot u32_rrot8 u32_rrot16 roll run take_out
  bytes-Runs v s t lt = (
    record {
      runs =
          ap (λ w. some (state (w ++ s) t))
            (sym (
              word_of (rrot v 8) b c d a (omega arith) (omega arith) (omega arith) (omega arith)
                (omega arith)));
    },
    record {
      runs =
          ap (λ w. some (state (w ++ s) t))
            (sym (
              word_of (rrot v 16) c d a b (omega arith) (omega arith) (omega arith) (omega arith)
                (omega arith)));
    },
    record {
      runs =
          ap (λ w. some (state (w ++ s) t))
            (sym (
              word_of (rrot v 24) d a b c (omega arith) (omega arith) (omega arith) (omega arith)
                (omega arith)));
    },
  )
    where
      a : ℕ
      a = v % 256

      b : ℕ
      b = v / 256 % 256

      c : ℕ
      c = v / 2 ^ 16 % 256

      d : ℕ
      d = v / 2 ^ 24 % 256

  twenty_three-Runs :
      (v : ℕ) (s t : Stack)
      → v < 2 ^ 32
      → Runs hash160
          (u32_rrot16 ⨾ u32_rrot7)
          (state (words (v ∷ []) s) t)
          (state (words (rrot v 23 ∷ []) s) t)
  twenty_three-Runs v s t lt =
      let (_, sixteen, _) = bytes-Runs v s t lt in
      subst
        (λ (w : ℕ).
          Runs hash160 (u32_rrot16 ⨾ u32_rrot7) (state (words (v ∷ []) s) t)
            (state (words (w ∷ []) s) t))
        (rrot-rrot v 16 7 (omega arith))
        (run-then hash160 sixteen (seven-Runs (rrot v 16) s t (rrot_lt v 16 (omega arith) lt)))

  same_word-Runs :
      (v : ℕ) (s t : Stack)
      → Runs hash160 [] (state (words (v ∷ []) s) t) (state (words (rrot v 0 ∷ []) s) t)
  unfolding rrot run
  same_word-Runs v s t =
      let same_value : v ≡ v / 2 ^ 0 + v % 2 ^ 0 * 2 ^ 32 = omega arith in
      record { runs = ap (λ (w : ℕ). some (state (words (w ∷ []) s) t)) same_value }

  -- A rotation with a script of its own.
  special_case :
      (n m v : ℕ) (s t : Stack) (own : Script)
      → n ≡ m
      → u32_rrot m ≡ some own
      → Runs hash160 own (state (words (v ∷ []) s) t) (state (words (rrot v m ∷ []) s) t)
      → Transforms hash160 (u32_rrot n) (v ∷ []) (rrot v n ∷ []) s t
  special_case n m v s t own e f r =
      subst (λ (i : ℕ). Transforms hash160 (u32_rrot i) (v ∷ []) (rrot v i ∷ []) s t) (sym e)
        (record { script = own; built = f; effect = r })

  general_case :
      (n v : ℕ) (s t : Stack)
      → n < 32
      → v < 2 ^ 32
      → 0 < n % 8
      → specific_optimize n ≡ none
      → Transforms hash160 (u32_rrot n) (v ∷ []) (rrot v n ∷ []) s t
  general_case n v s t h lt g e =
      subst (λ (o : Option Script). Transforms hash160 o (v ∷ []) (rrot v n ∷ []) s t)
        (sym (u32_rrot-general n h e))
        (subst
          (λ (w : ℕ).
            Transforms hash160 (rrot_bits (8 - n % 8) ((n - n % 8) / 8)) (v ∷ []) (w ∷ []) s t)
          together
          (rrot_bits-Transforms hash160 (8 - n % 8) ((n - n % 8) / 8) v s t (omega arith)
            (omega arith) (omega arith) lt))
    where
      sum : 8 - (8 - n % 8) + 8 * ((n - n % 8) / 8) ≡ n
      sum = omega arith

      together : rrot (rrot v (8 - (8 - n % 8))) (8 * ((n - n % 8) / 8)) ≡ rrot v n
      together =
          rrot-rrot v (8 - (8 - n % 8)) (8 * ((n - n % 8) / 8)) (omega (arith, sum))
          ∙ ap (λ (i : ℕ). rrot v i) sum

  -- For every number of bits below 32, `u32_rrot` produces a script, and the script rotates a word
  -- below 2^32 on top to the right by that many bits and leaves all else in place.
  pub u32_rrot_lem :
      (rot_num v : ℕ) (s t : Stack)
      → rot_num < 32
      → v < 2 ^ 32
      → Transforms hash160 (u32_rrot rot_num) (v ∷ []) (rrot v rot_num ∷ []) s t
  unfolding u32_rrot specific_optimize
  u32_rrot_lem rot_num v s t h lt =
      let (eight, sixteen, twenty_four) = bytes-Runs v s t lt in
      elim (cases_lem rot_num h) [
        | inl e ↦ special_case rot_num 0 v s t [] e refl (same_word-Runs v s t)
        | inr (inl e) ↦ special_case rot_num 7 v s t u32_rrot7 e refl (seven-Runs v s t lt)
        | inr (inr (inl e)) ↦ special_case rot_num 8 v s t u32_rrot8 e refl eight
        | inr (inr (inr (inl e))) ↦ special_case rot_num 16 v s t u32_rrot16 e refl sixteen
        | inr (inr (inr (inr (inl e)))) ↦
            special_case rot_num 23 v s t (u32_rrot16 ⨾ u32_rrot7) e refl
              (twenty_three-Runs v s t lt)
        | inr (inr (inr (inr (inr (inl e))))) ↦
            special_case rot_num 24 v s t (roll 3) e refl twenty_four
        | inr (inr (inr (inr (inr (inr (g, e)))))) ↦ general_case rot_num v s t h lt g e
      ]
