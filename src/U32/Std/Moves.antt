-- ===== src/U32/Std/Moves.antt =====
-- Pushing, comparing and moving words.
use bit_vm.Prelude.{
  ℕ, ◌+◌, ◌-◌, ◌*◌, ◌^◌, ◌<◌, ◌≡◌, refl, sym, ap, ap₂, ◌∙◌, subst, inl, inr, Bool, true, false,
  ◌&&◌, none, some, List, [], ◌∷◌, ◌++◌, arith, ◌==◌, if◌then◌else◌, Bool-cases, length,
}
use bit_vm.Hashing.{Bytes}
use bit_vm.Script.Defs.{
  Stack, op_toaltstack, op_fromaltstack, op_rot, op_booland, op_equal, state, bool, take_out, run,
}
use bit_vm.Script.Run.{◌⨾◌, repeat, Runs, run-then}
use bit_vm.U32.Stack.{
  byte, word, words, words-append, items, words-items, length-items, words_one, roll, pick,
  roll-Runs, pick-Runs,
}
use bit_vm.U32.Std.Defs.{
  push_to_stack, byte_of, u32_push, u32_equalverify, u32_equal, u32_toaltstack, u32_fromaltstack,
  u32_dup, u32_drop, u32_roll, u32_pick,
}

-- Two words are equal exactly if their bytes are, in the order in which `u32_equal` joins the tests.
digits_agree :
    (a₀ a₁ a₂ a₃ b₀ b₁ b₂ b₃ : ℕ)
    → a₀ < 256
    → a₁ < 256
    → a₂ < 256
    → b₀ < 256
    → b₁ < 256
    → b₂ < 256
    → (((b₃ == a₃ && a₂ == b₂) && a₁ == b₁) && a₀ == b₀)
      ≡ (a₀ + 256 * a₁ + 2 ^ 16 * a₂ + 2 ^ 24 * a₃ == b₀ + 256 * b₁ + 2 ^ 16 * b₂ + 2 ^ 24 * b₃)
digits_agree a₀ a₁ a₂ a₃ b₀ b₁ b₂ b₃ h₀ h₁ h₂ k₀ k₁ k₂ = ground arith

bytes_agree : ℕ → ℕ → Bool
bytes_agree x y =
    ((byte_of y 3 == byte_of x 3 && byte_of x 2 == byte_of y 2) && byte_of x 1 == byte_of y 1)
    && byte_of x 0 == byte_of y 0

bytes_agree_lem : (x y : ℕ) → x < 2 ^ 32 → y < 2 ^ 32 → bytes_agree x y ≡ (x == y)
unfolding bytes_agree
bytes_agree_lem x y h k =
    digits_agree (byte_of x 0) (byte_of x 1) (byte_of x 2) (byte_of x 3) (byte_of y 0) (byte_of y 1)
      (byte_of y 2) (byte_of y 3) (omega arith) (omega arith) (omega arith) (omega arith)
      (omega arith) (omega arith)
    ∙ ap₂ (λ a b. a == b) (omega arith) (omega arith)

module _ (hash160 : Bytes → Bytes) where
  push_same-Runs :
      (n : ℕ) (s t : Stack)
      → Runs hash160
          (push_to_stack n 4)
          (state s t)
          (state (byte n ∷ byte n ∷ byte n ∷ byte n ∷ s) t)
  unfolding push_to_stack run repeat
  push_same-Runs n s t = record { runs = refl }

  push_same_lem :
      (a b c d : ℕ) (s t : Stack)
      → (d == c && d == b && d == a) ≡ true
      → Runs hash160
          (push_to_stack d 4)
          (state s t)
          (state (byte a ∷ byte b ∷ byte c ∷ byte d ∷ s) t)
  push_same_lem a b c d s t h =
      let e : a ≡ d = ground arith in
      let f : b ≡ d = ground arith in
      let g : c ≡ d = ground arith in
      record {
        runs =
            (push_same-Runs d s t).runs
            ∙ (λ i. some (state (byte (sym e i) ∷ byte (sym f i) ∷ byte (sym g i) ∷ byte d ∷ s) t));
      }

  -- `u32_push` pushes the four bytes of a value's lower 32 bits, the lowest byte last, also where
  -- it pushes one byte and duplicates it.
  pub u32_push-Runs :
      (v : ℕ) (s t : Stack) → Runs hash160 (u32_push v) (state s t) (state (words (v ∷ []) s) t)
  unfolding u32_push push_to_stack run
  u32_push-Runs v s t =
      elim (Bool-cases
        (byte_of v 3 == byte_of v 2 && byte_of v 3 == byte_of v 1 && byte_of v 3 == byte_of v 0)) [
          | inl equal ↦
              rw equal
                (push_same_lem (byte_of v 0) (byte_of v 1) (byte_of v 2) (byte_of v 3) s t equal)
          | inr differ ↦ rw differ (record { runs = refl })
        ]

  booland-Runs :
      (c d : Bool) (s t : Stack)
      → Runs hash160
          (op_fromaltstack ∷ op_booland ∷ [])
          (state (bool c ∷ s) (bool d ∷ t))
          (state (bool (c && d) ∷ s) t)
  unfolding run
  booland-Runs false false s t = record { runs = refl }
  booland-Runs false true s t = record { runs = refl }
  booland-Runs true false s t = record { runs = refl }
  booland-Runs true true s t = record { runs = refl }

  -- `u32_equal` replaces two words below 2^32 on top by 1 if they are equal and by 0 if not.
  pub u32_equal-Runs :
      (x y : ℕ) (s t : Stack)
      → x < 2 ^ 32
      → y < 2 ^ 32
      → Runs hash160 u32_equal (state (words (x ∷ y ∷ []) s) t) (state (bool (x == y) ∷ s) t)
  unfolding u32_equal run bytes_agree
  u32_equal-Runs x y s t h k =
      subst (λ c. Runs hash160 u32_equal (state (words (x ∷ y ∷ []) s) t) (state (bool c ∷ s) t))
        (bytes_agree_lem x y h k)
        (run-then hash160 tests (
          run-then hash160
            (booland-Runs (byte_of y 3 == byte_of x 3) (byte_of x 2 == byte_of y 2) s
              (bool (byte_of x 1 == byte_of y 1) ∷ bool (byte_of x 0 == byte_of y 0) ∷ t))
            (run-then hash160
              (booland-Runs _ (byte_of x 1 == byte_of y 1) s
                (bool (byte_of x 0 == byte_of y 0) ∷ t))
              (booland-Runs _ (byte_of x 0 == byte_of y 0) s t))))
    where
      tests :
          Runs hash160
            (roll 4
              ⨾ op_equal ∷ op_toaltstack ∷ []
              ⨾ roll 3
              ⨾ op_equal ∷ op_toaltstack ∷ op_rot ∷ op_equal ∷ op_toaltstack ∷ op_equal ∷ [])
            (state (words (x ∷ y ∷ []) s) t)
            (state (bool (byte_of y 3 == byte_of x 3) ∷ s) (
              bool (byte_of x 2 == byte_of y 2)
              ∷ bool (byte_of x 1 == byte_of y 1)
              ∷ bool (byte_of x 0 == byte_of y 0)
              ∷ t))
      tests = record { runs = refl }

  verify_bytes_lem :
      (a₀ a₁ a₂ a₃ b₀ b₁ b₂ b₃ : ℕ) (s t : Stack)
      → run hash160 u32_equalverify (
          state
            (byte a₀ ∷ byte a₁ ∷ byte a₂ ∷ byte a₃ ∷ byte b₀ ∷ byte b₁ ∷ byte b₂ ∷ byte b₃ ∷ s)
            t)
        ≡ (if ((b₃ == a₃ && a₂ == b₂) && a₁ == b₁) && a₀ == b₀ then some (state s t) else none)
  unfolding u32_equalverify run
  verify_bytes_lem a₀ a₁ a₂ a₃ b₀ b₁ b₂ b₃ s t = ground arith

  -- `u32_equalverify` removes two words below 2^32 on top if they are equal, and fails if not.
  pub u32_equalverify_lem :
      (x y : ℕ) (s t : Stack)
      → x < 2 ^ 32
      → y < 2 ^ 32
      → run hash160 u32_equalverify (state (words (x ∷ y ∷ []) s) t)
        ≡ (if x == y then some (state s t) else none)
  unfolding bytes_agree
  u32_equalverify_lem x y s t h k =
      verify_bytes_lem (byte_of x 0) (byte_of x 1) (byte_of x 2) (byte_of x 3) (byte_of y 0)
        (byte_of y 1) (byte_of y 2) (byte_of y 3) s t
      ∙ ap (λ c. if c then some (state s t) else none) (bytes_agree_lem x y h k)

  -- A word that goes to the alternative stack and comes back is the same word, and the rest of
  -- both stacks is unchanged.
  pub u32_toaltstack-u32_fromaltstack :
      (x : ℕ) (s t : Stack)
      → Runs hash160
          (u32_toaltstack ⨾ u32_fromaltstack)
          (state (words (x ∷ []) s) t)
          (state (words (x ∷ []) s) t)
  unfolding u32_toaltstack u32_fromaltstack run
  u32_toaltstack-u32_fromaltstack x s t = record { runs = refl }

  pub u32_dup-Runs :
      (x : ℕ) (s t : Stack)
      → Runs hash160 u32_dup (state (words (x ∷ []) s) t) (state (words (x ∷ x ∷ []) s) t)
  unfolding u32_dup run
  u32_dup-Runs x s t = record { runs = refl }

  pub u32_drop-Runs :
      (x : ℕ) (s t : Stack) → Runs hash160 u32_drop (state (words (x ∷ []) s) t) (state s t)
  unfolding u32_drop run
  u32_drop-Runs x s t = record { runs = refl }

  -- `u32_roll n` moves the word below the first `n` words to the top.
  pub u32_roll-Runs :
      (p r : List ℕ) (x : ℕ) (s t : Stack)
      → Runs hash160
          (u32_roll (length p))
          (state (words (p ++ x ∷ r) s) t)
          (state (words (x ∷ (p ++ r)) s) t)
  unfolding u32_roll take_out roll
  u32_roll-Runs p r x s t =
      rw (words_one p r x s, words-append p r s, words-items p (words r s))
        (run-then hash160
          (roll-Runs hash160 (items p) (word x ++ words r s) t _ k 3 (byte (byte_of x 3))
            (omega (arith, length-items p)) refl)
          (run-then hash160
            (roll-Runs hash160 (byte (byte_of x 3) ∷ items p)
              (byte (byte_of x 0) ∷ byte (byte_of x 1) ∷ byte (byte_of x 2) ∷ words r s) t _ k 2
              (byte (byte_of x 2)) (omega (arith, length-items p)) refl)
            (run-then hash160
              (roll-Runs hash160 (byte (byte_of x 2) ∷ byte (byte_of x 3) ∷ items p)
                (byte (byte_of x 0) ∷ byte (byte_of x 1) ∷ words r s) t _ k 1 (byte (byte_of x 1))
                (omega (arith, length-items p)) refl)
              (roll-Runs hash160
                (byte (byte_of x 1) ∷ byte (byte_of x 2) ∷ byte (byte_of x 3) ∷ items p)
                (byte (byte_of x 0) ∷ words r s) t _ k 0 (byte (byte_of x 0))
                (omega (arith, length-items p)) refl))))
    where
      k : ℕ
      k = (length p + 1) * 4 - 1

  -- `u32_pick n` copies the word below the first `n` words to the top.
  pub u32_pick-Runs :
      (p r : List ℕ) (x : ℕ) (s t : Stack)
      → Runs hash160
          (u32_pick (length p))
          (state (words (p ++ x ∷ r) s) t)
          (state (words (x ∷ (p ++ x ∷ r)) s) t)
  unfolding u32_pick pick
  u32_pick-Runs p r x s t = rw (words_one p r x s) (
      run-then hash160
        (pick-Runs hash160 (items p) (word x ++ words r s) t k 3 (byte (byte_of x 3))
          (omega (arith, length-items p)) refl)
        (run-then hash160
          (pick-Runs hash160 (byte (byte_of x 3) ∷ items p) (word x ++ words r s) t k 2
            (byte (byte_of x 2)) (omega (arith, length-items p)) refl)
          (run-then hash160
            (pick-Runs hash160 (byte (byte_of x 2) ∷ byte (byte_of x 3) ∷ items p)
              (word x ++ words r s) t k 1 (byte (byte_of x 1)) (omega (arith, length-items p)) refl)
            (pick-Runs hash160
              (byte (byte_of x 1) ∷ byte (byte_of x 2) ∷ byte (byte_of x 3) ∷ items p)
              (word x ++ words r s) t k 0 (byte (byte_of x 0)) (omega (arith, length-items p))
              refl))))
    where
      k : ℕ
      k = (length p + 1) * 4 - 1
