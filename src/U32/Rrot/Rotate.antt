-- ===== src/U32/Rrot/Rotate.antt =====
-- Rotating the bytes of a word, and `u32_rrot7`.
use bit_vm.Prelude.{ℕ, zero, suc, ◌+◌, ◌-◌, ◌*◌, ◌/◌, ◌%◌, ◌^◌, ◌≤◌, ◌<◌, ◌≡◌, refl, [], ◌∷◌, arith}
use bit_vm.Script.Defs.{
  Item, Stack, op_toaltstack, op_fromaltstack, op_dup, op_swap, op_2swap, op_rot, op_add, state,
  take_out, run,
}
use bit_vm.Hashing.{Bytes}
use bit_vm.Script.Run.{◌⨾◌, Runs, run-then}
use bit_vm.U32.Stack.{byte, roll}
use bit_vm.U32.Rrot.Defs.{u8_rrot7, u32_rrot7}

-- A word rotated to the right by `n` bits.
unfoldable pub rrot : ℕ → ℕ → ℕ
rrot v n = v / 2 ^ n + v % 2 ^ n * 2 ^ (32 - n)

-- The bytes of a word rotated by less than a byte.
abbrev pub shifted : ℕ → ℕ → ℕ → ℕ
shifted hbit low high = low * 2 ^ hbit / 256 + high * 2 ^ hbit % 256

pub shifted_lt : (hbit x y : ℕ) → 1 ≤ hbit → hbit < 8 → x < 256 → y < 256 → shifted hbit x y < 256
shifted_lt zero x y h g k l = absurd (omega arith)
shifted_lt (suc zero) x y h g k l = omega arith
shifted_lt (suc (suc zero)) x y h g k l = omega arith
shifted_lt (suc (suc (suc zero))) x y h g k l = omega arith
shifted_lt (suc (suc (suc (suc zero)))) x y h g k l = omega arith
shifted_lt (suc (suc (suc (suc (suc zero))))) x y h g k l = omega arith
shifted_lt (suc (suc (suc (suc (suc (suc zero)))))) x y h g k l = omega arith
shifted_lt (suc (suc (suc (suc (suc (suc (suc zero))))))) x y h g k l = omega arith
shifted_lt (suc (suc (suc (suc (suc (suc (suc (suc hbit)))))))) x y h g k l = absurd (omega arith)

abbrev pub of_bytes : ℕ → ℕ → ℕ → ℕ → ℕ
of_bytes a b c d = a + b * 256 + c * 2 ^ 16 + d * 2 ^ 24

abbrev pub rotated : ℕ → ℕ → ℕ → ℕ → ℕ → ℕ
rotated hbit a b c d =
    of_bytes (shifted hbit a b) (shifted hbit b c) (shifted hbit c d) (shifted hbit d a)

pub rrot-bytes :
    (hbit a b c d : ℕ)
    → 1 ≤ hbit
    → hbit < 8
    → a < 256
    → b < 256
    → c < 256
    → d < 256
    → rrot (of_bytes a b c d) (8 - hbit) ≡ rotated hbit a b c d
unfolding rrot
rrot-bytes zero a b c d h g ha hb hc hd = absurd (omega arith)
rrot-bytes (suc zero) a b c d h g ha hb hc hd = omega arith
rrot-bytes (suc (suc zero)) a b c d h g ha hb hc hd = omega arith
rrot-bytes (suc (suc (suc zero))) a b c d h g ha hb hc hd = omega arith
rrot-bytes (suc (suc (suc (suc zero)))) a b c d h g ha hb hc hd = omega arith
rrot-bytes (suc (suc (suc (suc (suc zero))))) a b c d h g ha hb hc hd = omega arith
rrot-bytes (suc (suc (suc (suc (suc (suc zero)))))) a b c d h g ha hb hc hd = omega arith
rrot-bytes (suc (suc (suc (suc (suc (suc (suc zero))))))) a b c d h g ha hb hc hd = omega arith
rrot-bytes (suc (suc (suc (suc (suc (suc (suc (suc hbit)))))))) a b c d h g ha hb hc hd =
    absurd (omega arith)

module _ (hash160 : Bytes → Bytes) where
  u8_rrot7-Runs :
      (n : ℕ) (s t : Stack)
      → n < 256
      → Runs hash160
          (u8_rrot7 0)
          (state (byte n ∷ s) t)
          (state (byte (n / 128) ∷ byte (n % 128) ∷ s) t)
  unfolding u8_rrot7 run
  u8_rrot7-Runs n s t h = record { runs = ground arith }

  -- A byte's lower seven bits move up and take in the bit of its neighbour.
  join-Runs :
      (a q m : ℕ) (s t : Stack)
      → a < 2
      → q < 2
      → m < 128
      → Runs hash160
          (op_toaltstack ∷ op_dup ∷ op_add ∷ op_add ∷ op_fromaltstack ∷ [])
          (state (byte q ∷ byte m ∷ byte a ∷ s) t)
          (state (byte q ∷ byte (a + m * 2) ∷ s) t)
  unfolding run
  join-Runs a q m s t h g k = record { runs = ground arith }

  pub u32_rrot7-Runs :
      (a b c d : ℕ) (s t : Stack)
      → a < 256
      → b < 256
      → c < 256
      → d < 256
      → Runs hash160 u32_rrot7 (state (byte a ∷ byte b ∷ byte c ∷ byte d ∷ s) t) (
          state
            (byte (a / 128 + b % 128 * 2)
              ∷ byte (b / 128 + c % 128 * 2)
              ∷ byte (c / 128 + d % 128 * 2)
              ∷ byte (d / 128 + a % 128 * 2)
              ∷ s)
            t)
  unfolding u32_rrot7 u8_rrot7 roll run take_out
  u32_rrot7-Runs a b c d s t ha hb hc hd =
      run-then hash160 (u8_rrot7-Runs a (byte b ∷ byte c ∷ byte d ∷ s) t ha) (
        run-then hash160 (rot (byte b) (byte (a / 128)) (byte (a % 128)) (byte c ∷ byte d ∷ s)) (
          run-then hash160
            (u8_rrot7-Runs b (byte (a / 128) ∷ byte (a % 128) ∷ byte c ∷ byte d ∷ s) t hb)
            (run-then hash160
              (join-Runs (a / 128) (b / 128) (b % 128) (byte (a % 128) ∷ byte c ∷ byte d ∷ s) t
                (omega arith) (omega arith) (omega arith))
              (run-then hash160
                (third (byte (b / 128)) (byte z₀) (byte (a % 128)) (byte c) (byte d ∷ s))
                (run-then hash160
                  (u8_rrot7-Runs c (byte (b / 128) ∷ byte z₀ ∷ byte (a % 128) ∷ byte d ∷ s) t hc)
                  (run-then hash160
                    (join-Runs (b / 128) (c / 128) (c % 128) (byte z₀ ∷ byte (a % 128) ∷ byte d ∷ s)
                      t (omega arith) (omega arith) (omega arith))
                    (run-then hash160
                      (fourth (byte (c / 128)) (byte z₁) (byte z₀) (byte (a % 128)) (byte d) s)
                      (run-then hash160
                        (u8_rrot7-Runs d (byte (c / 128) ∷ byte z₁ ∷ byte z₀ ∷ byte (a % 128) ∷ s) t
                          hd)
                        (run-then hash160
                          (join-Runs (c / 128) (d / 128) (d % 128)
                            (byte z₁ ∷ byte z₀ ∷ byte (a % 128) ∷ s) t (omega arith) (omega arith)
                            (omega arith))
                          (last (d / 128) (a % 128) z₂ z₁ z₀ (omega arith) (omega arith)))))))))))
    where
      z₀ : ℕ
      z₀ = a / 128 + b % 128 * 2

      z₁ : ℕ
      z₁ = b / 128 + c % 128 * 2

      z₂ : ℕ
      z₂ = c / 128 + d % 128 * 2

      rot :
          (x y z : Item) (u : Stack)
          → Runs hash160 (op_rot ∷ []) (state (y ∷ z ∷ x ∷ u) t) (state (x ∷ y ∷ z ∷ u) t)
      rot x y z u = record { runs = refl }

      third :
          (x y z w : Item) (u : Stack)
          → Runs hash160 (roll 3) (state (x ∷ y ∷ z ∷ w ∷ u) t) (state (w ∷ x ∷ y ∷ z ∷ u) t)
      third x y z w u = record { runs = refl }

      fourth :
          (x y z w v : Item) (u : Stack)
          → Runs hash160
              (roll 4)
              (state (x ∷ y ∷ z ∷ w ∷ v ∷ u) t)
              (state (v ∷ x ∷ y ∷ z ∷ w ∷ u) t)
      fourth x y z w v u = record { runs = refl }

      last :
          (q m x y z : ℕ)
          → q < 2
          → m < 128
          → Runs hash160
              (roll 4 ⨾ op_dup ∷ op_add ∷ op_add ∷ op_swap ∷ op_2swap ∷ op_swap ∷ [])
              (state (byte q ∷ byte x ∷ byte y ∷ byte z ∷ byte m ∷ s) t)
              (state (byte z ∷ byte y ∷ byte x ∷ byte (q + m * 2) ∷ s) t)
      last q m x y z g k = record { runs = ground arith }
