-- ===== src/U32/Add.antt =====
-- u32_add.rs
use bit_vm.Prelude.{
  ℕ, ◌+◌, ◌/◌, ◌%◌, ◌^◌, ◌<◌, sym, ap, Option, some, List, [], ◌∷◌, ◌++◌, arith, ◌>>=◌, length,
}
use bit_vm.Prelude.Int.{pos}
use bit_vm.Hashing.{Bytes}
use bit_vm.Script.Defs.{
  Stack, push, op_if, op_else, op_endif, op_toaltstack, op_fromaltstack, op_2dup, op_drop, op_swap,
  op_add, op_sub, op_greaterthanorequal, Script, state, run,
}
use bit_vm.Script.Run.{◌⨾◌, Runs, run-then}
use bit_vm.U32.Stack.{byte, word, word_of, words, Transforms}
use bit_vm.U32.Zip.{
  u32_zip, u32_copy_zip, zipped, u32_copy_zip-upper, u32_copy_zip-lower, u32_zip_both,
}

unfoldable pub u8_add_carry : Script
u8_add_carry =
    op_add
    ∷ push (pos 256)
    ∷ op_2dup
    ∷ op_greaterthanorequal
    ∷ op_if
    ∷ op_sub
    ∷ push (pos 1)
    ∷ op_else
    ∷ op_drop
    ∷ push (pos 0)
    ∷ op_endif
    ∷ []

unfoldable pub u8_add : Script
u8_add =
    op_add
    ∷ push (pos 256)
    ∷ op_2dup
    ∷ op_greaterthanorequal
    ∷ op_if
    ∷ op_sub
    ∷ push (pos 0)
    ∷ op_endif
    ∷ op_drop
    ∷ []

-- What `u32_add` and `u32_add_drop` do after zipping.
unfoldable pub add_zipped : Script
unfolding u8_add_carry u8_add
add_zipped =
    u8_add_carry
    ⨾ op_swap ∷ op_toaltstack ∷ []
    ⨾ op_add ∷ []
    ⨾ u8_add_carry
    ⨾ op_swap ∷ op_toaltstack ∷ []
    ⨾ op_add ∷ []
    ⨾ u8_add_carry
    ⨾ op_swap ∷ op_toaltstack ∷ []
    ⨾ op_add ∷ []
    ⨾ u8_add
    ⨾ op_fromaltstack ∷ op_fromaltstack ∷ op_fromaltstack ∷ []

unfoldable pub u32_add : ℕ → ℕ → Option Script
unfolding add_zipped
u32_add a b = do zip ← u32_copy_zip a b; some (zip ⨾ add_zipped)

unfoldable pub u32_add_drop : ℕ → ℕ → Option Script
unfolding add_zipped
u32_add_drop a b = do zip ← u32_zip a b; some (zip ⨾ add_zipped)

module _ (hash160 : Bytes → Bytes) where
  u8_add_carry-Runs :
      (a b : ℕ) (s t : Stack)
      → a < 256
      → b < 257
      → Runs hash160 u8_add_carry
          (state (byte b ∷ byte a ∷ s) t)
          (state (byte ((a + b) / 256) ∷ byte ((a + b) % 256) ∷ s) t)
  unfolding u8_add_carry run
  u8_add_carry-Runs a b s t h k = record { runs = ground arith }

  u8_add-Runs :
      (a b : ℕ) (s t : Stack)
      → a < 256
      → b < 257
      → Runs hash160 u8_add (state (byte b ∷ byte a ∷ s) t) (state (byte ((a + b) % 256) ∷ s) t)
  unfolding u8_add run
  u8_add-Runs a b s t h k = record { runs = ground arith }

  -- The carry goes to the next byte.
  carry-Runs :
      (x c b : ℕ) (s t : Stack)
      → c < 2
      → b < 256
      → Runs hash160
          (op_swap ∷ op_toaltstack ∷ op_add ∷ [])
          (state (byte c ∷ byte x ∷ byte b ∷ s) t)
          (state (byte (b + c) ∷ s) (byte x ∷ t))
  unfolding run
  carry-Runs x c b s t h k = record { runs = ground arith }

  -- Schoolbook addition of the bytes is addition modulo 2^32.
  pub add_zipped-Runs :
      (x y : ℕ) (s t : Stack)
      → Runs hash160 add_zipped
          (state
            (zipped
              (byte (x % 256))
              (byte (x / 256 % 256))
              (byte (x / 2 ^ 16 % 256))
              (byte (x / 2 ^ 24 % 256))
              (byte (y % 256))
              (byte (y / 256 % 256))
              (byte (y / 2 ^ 16 % 256))
              (byte (y / 2 ^ 24 % 256))
              s)
            t)
          (state (word ((x + y) % 2 ^ 32) ++ s) t)
  unfolding add_zipped run
  add_zipped-Runs x y s t =
      run-then hash160
        (u8_add_carry-Runs x₀ y₀ (byte y₁ ∷ byte x₁ ∷ s₂) t (omega arith) (omega arith))
        (run-then hash160 (carry-Runs z₀ c₁ y₁ (byte x₁ ∷ s₂) t (omega arith) (omega arith)) (
          run-then hash160
            (u8_add_carry-Runs x₁ (y₁ + c₁) s₂ (byte z₀ ∷ t) (omega arith) (omega arith))
            (run-then hash160
              (carry-Runs z₁ c₂ y₂ (byte x₂ ∷ s₃) (byte z₀ ∷ t) (omega arith) (omega arith))
              (run-then hash160
                (u8_add_carry-Runs x₂ (y₂ + c₂) s₃ (byte z₁ ∷ byte z₀ ∷ t) (omega arith)
                  (omega arith))
                (run-then hash160
                  (carry-Runs z₂ c₃ y₃ (byte x₃ ∷ s) (byte z₁ ∷ byte z₀ ∷ t) (omega arith)
                    (omega arith))
                  (run-then hash160
                    (u8_add-Runs x₃ (y₃ + c₃) s (byte z₂ ∷ byte z₁ ∷ byte z₀ ∷ t) (omega arith)
                      (omega arith))
                    last))))))
    where
      x₀ : ℕ
      x₀ = x % 256

      x₁ : ℕ
      x₁ = x / 256 % 256

      x₂ : ℕ
      x₂ = x / 2 ^ 16 % 256

      x₃ : ℕ
      x₃ = x / 2 ^ 24 % 256

      y₀ : ℕ
      y₀ = y % 256

      y₁ : ℕ
      y₁ = y / 256 % 256

      y₂ : ℕ
      y₂ = y / 2 ^ 16 % 256

      y₃ : ℕ
      y₃ = y / 2 ^ 24 % 256

      z₀ : ℕ
      z₀ = (x₀ + y₀) % 256

      c₁ : ℕ
      c₁ = (x₀ + y₀) / 256

      z₁ : ℕ
      z₁ = (x₁ + (y₁ + c₁)) % 256

      c₂ : ℕ
      c₂ = (x₁ + (y₁ + c₁)) / 256

      z₂ : ℕ
      z₂ = (x₂ + (y₂ + c₂)) % 256

      c₃ : ℕ
      c₃ = (x₂ + (y₂ + c₂)) / 256

      z₃ : ℕ
      z₃ = (x₃ + (y₃ + c₃)) % 256

      s₃ : Stack
      s₃ = byte y₃ ∷ byte x₃ ∷ s

      s₂ : Stack
      s₂ = byte y₂ ∷ byte x₂ ∷ s₃

      last :
          Runs hash160
            (op_fromaltstack ∷ op_fromaltstack ∷ op_fromaltstack ∷ [])
            (state (byte z₃ ∷ s) (byte z₂ ∷ byte z₁ ∷ byte z₀ ∷ t))
            (state (word ((x + y) % 2 ^ 32) ++ s) t)
      last = record {
        runs =
            ap (λ w. some (state (w ++ s) t))
              (sym (
                word_of ((x + y) % 2 ^ 32) z₀ z₁ z₂ z₃ (omega arith) (omega arith) (omega arith)
                  (omega arith) (omega arith)));
      }

  -- On a stack of words with `x` below the words `p`, and `y` below `x` and the words `m`:
  -- `u32_add` at the positions of `x` and `y` pushes their sum modulo 2^32, keeps the word whose
  -- position comes first and removes the other; `u32_add_drop` removes both. Nothing else on the two
  -- stacks changes, and no opcode fails.
  pub u32_add_lem :
      (p m r : List ℕ) (x y : ℕ) (s t : Stack)
      → Transforms hash160
          (u32_add (length p) (length p + 1 + length m))
          (p ++ x ∷ (m ++ y ∷ r))
          (((x + y) % 2 ^ 32) ∷ (p ++ x ∷ (m ++ r)))
          s
          t
        × Transforms hash160
            (u32_add (length p + 1 + length m) (length p))
            (p ++ x ∷ (m ++ y ∷ r))
            (((x + y) % 2 ^ 32) ∷ (p ++ (m ++ y ∷ r)))
            s
            t
        × Transforms hash160
            (u32_add_drop (length p) (length p + 1 + length m))
            (p ++ x ∷ (m ++ y ∷ r))
            (((x + y) % 2 ^ 32) ∷ (p ++ (m ++ r)))
            s
            t
  unfolding u32_add u32_add_drop
  u32_add_lem p m r x y s t = (
    u32_copy_zip-upper hash160 add_zipped p m r x y sum s t
        (add_zipped-Runs x y (words (p ++ x ∷ (m ++ r)) s) t),
    u32_copy_zip-lower hash160 add_zipped p m r x y sum s t
        (add_zipped-Runs x y (words (p ++ (m ++ y ∷ r)) s) t),
    u32_zip_both hash160 add_zipped p m r x y sum s t
        (add_zipped-Runs x y (words (p ++ (m ++ r)) s) t),
  )
    where
      sum : ℕ
      sum = (x + y) % 2 ^ 32
