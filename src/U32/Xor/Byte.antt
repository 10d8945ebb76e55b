-- ===== src/U32/Xor/Byte.antt =====
-- `u8_xor` on two bytes.
use bit_vm.Prelude.{
  ℕ, ◌+◌, ◌-◌, ◌*◌, ◌^◌, ◌≤◌, ◌<◌, bit_xor, ◌≡◌, refl, sym, ◌∙◌, subst, some, [], ◌∷◌, ◌++◌, arith,
  length, get_elem?,
}
use bit_vm.Prelude.Int.{pos}
use bit_vm.Hashing.{Bytes}
use bit_vm.Script.Defs.{
  Item, Stack, push, op_dup, op_over, op_swap, op_rot, op_pick, op_add, op_sub, Script, state,
  take_out, run,
}
use bit_vm.Script.Run.{◌⨾◌, Runs, run-then}
use bit_vm.U32.Stack.{byte, get_elem?-below, roll}
use bit_vm.U32.Xor.Bits.{f, f_lt, odd_lem, xor_bits}
use bit_vm.U32.Xor.Table.{xor_table, xor_table-entry}

unfoldable pub u8_xor : ℕ → Script
unfolding roll
u8_xor i =
    op_dup ∷ push (pos i) ∷ op_add ∷ op_pick ∷ []
    ⨾ op_dup ∷ op_dup ∷ op_add ∷ op_rot ∷ op_swap ∷ op_sub ∷ []
    ⨾ op_rot ∷ op_dup ∷ push (pos (i + 1)) ∷ op_add ∷ op_pick ∷ []
    ⨾ op_dup ∷ op_dup ∷ op_add ∷ op_rot ∷ op_swap ∷ op_sub ∷ []
    ⨾ op_swap ∷ []
    ⨾ roll 3
    ⨾ op_add ∷ []
    ⨾ op_dup ∷ push (pos (i + 1)) ∷ op_add ∷ op_pick ∷ op_dup ∷ op_add ∷ op_sub ∷ []
    ⨾ op_swap ∷ op_rot ∷ op_add ∷ []
    ⨾ op_dup ∷ push (pos i) ∷ op_add ∷ op_pick ∷ op_dup ∷ op_add ∷ op_sub ∷ []
    ⨾ op_over ∷ op_add ∷ op_add ∷ []

module _ (hash160 : Bytes → Bytes) (q table s t : Stack) (i : ℕ) (known : i ≡ length q + 2)
    (room : i < 2 ^ 20)
    (entry : (n : ℕ) → n < 256 → get_elem? (table ++ s) n ≡ some (byte (f n))) where
  lookup-Runs :
      (p : Stack) (n k : ℕ)
      → n < 256
      → k ≡ length p + length q + 1
      → k < 2 ^ 21
      → Runs hash160
          (op_dup ∷ push (pos k) ∷ op_add ∷ op_pick ∷ [])
          (state (byte n ∷ p ++ (q ++ (table ++ s))) t)
          (state (byte (f n) ∷ byte n ∷ p ++ (q ++ (table ++ s))) t)
  unfolding run
  lookup-Runs p n k h e small =
      let found : get_elem? (byte n ∷ p ++ (q ++ (table ++ s))) (n + k) ≡ some (byte (f n)) =
        get_elem?-below (byte n ∷ p) (q ++ (table ++ s)) (length q + n) (n + k) (omega (arith, e))
        ∙ get_elem?-below q (table ++ s) n (length q + n) (omega arith)
        ∙ entry n h in
      record { runs = ground (arith, found) }

  odd-Runs :
      (a : ℕ) (r : Stack)
      → a < 256
      → Runs hash160
          (op_dup ∷ op_dup ∷ op_add ∷ op_rot ∷ op_swap ∷ op_sub ∷ [])
          (state (byte (f a) ∷ byte a ∷ r) t)
          (state (byte (a - 2 * f a) ∷ byte (f a) ∷ r) t)
  unfolding run
  odd-Runs a r h = let below : 2 * f a ≤ a = omega arith in abstracted (f a) below
    where
      abstracted :
          (g : ℕ)
          → 2 * g ≤ a
          → Runs hash160
              (op_dup ∷ op_dup ∷ op_add ∷ op_rot ∷ op_swap ∷ op_sub ∷ [])
              (state (byte g ∷ byte a ∷ r) t)
              (state (byte (a - 2 * g) ∷ byte g ∷ r) t)
      abstracted g l = record { runs = ground arith }

  strip-Runs :
      (a : ℕ) (r : Stack)
      → a < 256
      → Runs hash160
          (op_dup ∷ op_add ∷ op_sub ∷ [])
          (state (byte (f a) ∷ byte a ∷ r) t)
          (state (byte (a - 2 * f a) ∷ r) t)
  unfolding run
  strip-Runs a r h = let below : 2 * f a ≤ a = omega arith in abstracted (f a) below
    where
      abstracted :
          (g : ℕ)
          → 2 * g ≤ a
          → Runs hash160
              (op_dup ∷ op_add ∷ op_sub ∷ [])
              (state (byte g ∷ byte a ∷ r) t)
              (state (byte (a - 2 * g) ∷ r) t)
      abstracted g l = record { runs = ground arith }

  meet-Runs :
      (a b c d : ℕ) (r : Stack)
      → a < 256
      → b < 256
      → Runs hash160
          (op_swap ∷ [] ⨾ roll 3 ⨾ op_add ∷ [])
          (state (byte c ∷ byte b ∷ byte d ∷ byte a ∷ r) t)
          (state (byte (a + b) ∷ byte c ∷ byte d ∷ r) t)
  unfolding roll run take_out
  meet-Runs a b c d r h k = record { runs = ground arith }

  join-Runs :
      (a b c : ℕ) (r : Stack)
      → a < 256
      → b < 256
      → Runs hash160
          (op_swap ∷ op_rot ∷ op_add ∷ [])
          (state (byte c ∷ byte b ∷ byte a ∷ r) t)
          (state (byte (a + b) ∷ byte c ∷ r) t)
  unfolding run
  join-Runs a b c r h k = record { runs = ground arith }

  last-Runs :
      (a b : ℕ) (r : Stack)
      → a < 256
      → b < 256
      → Runs hash160
          (op_over ∷ op_add ∷ op_add ∷ [])
          (state (byte a ∷ byte b ∷ r) t)
          (state (byte (a + 2 * b) ∷ r) t)
  unfolding run
  last-Runs a b r h k = record { runs = ground arith }

  rot-Runs :
      (a b c : Item) (r : Stack)
      → Runs hash160 (op_rot ∷ []) (state (c ∷ b ∷ a ∷ r) t) (state (a ∷ c ∷ b ∷ r) t)
  unfolding run
  rot-Runs a b c r = record { runs = refl }

  u8_xor-Runs :
      (a b : ℕ)
      → a < 256
      → b < 256
      → Runs hash160
          (u8_xor i)
          (state (byte a ∷ byte b ∷ q ++ (table ++ s)) t)
          (state (byte (bit_xor a b) ∷ q ++ (table ++ s)) t)
  unfolding u8_xor
  u8_xor-Runs a b h k =
      subst
        (λ (x : ℕ). Runs hash160 (u8_xor i) (state (byte a ∷ byte b ∷ r) t) (state (byte x ∷ r) t))
        (sym (xor_bits a b h k))
        (run-then hash160 (lookup-Runs (byte b ∷ []) a i h (omega arith) (omega arith)) (
          run-then hash160 (odd-Runs a (byte b ∷ r) h) (
            run-then hash160 (rot-Runs (byte b) (byte (f a)) (byte ao) r) (
              run-then hash160
                (lookup-Runs (byte ao ∷ byte (f a) ∷ []) b (i + 1) k (omega arith) (omega arith))
                (run-then hash160 (odd-Runs b (byte ao ∷ byte (f a) ∷ r) k) (
                  run-then hash160 (meet-Runs (f a) (f b) bo ao r (byte_lt a) (byte_lt b)) (
                    run-then hash160
                      (lookup-Runs (byte bo ∷ byte ao ∷ []) even (i + 1) even_lt (omega arith)
                        (omega arith))
                      (run-then hash160 (strip-Runs even (byte bo ∷ byte ao ∷ r) even_lt) (
                        run-then hash160
                          (join-Runs ao bo (even - 2 * f even) r (omega arith) (omega arith))
                          (run-then hash160
                            (lookup-Runs (byte (even - 2 * f even) ∷ []) odd i odd_lt (omega arith)
                              (omega arith))
                            (run-then hash160 (strip-Runs odd (byte (even - 2 * f even) ∷ r) odd_lt)
                              (last-Runs (odd - 2 * f odd) (even - 2 * f even) r
                                (omega (arith, odd_lt)) (omega (arith, even_lt))))))))))))))
    where
      r : Stack
      r = q ++ (table ++ s)

      ao : ℕ
      ao = a - 2 * f a

      bo : ℕ
      bo = b - 2 * f b

      even : ℕ
      even = f a + f b

      odd : ℕ
      odd = ao + bo

      byte_lt : (x : ℕ) → f x < 256
      byte_lt x = omega (arith, f_lt x)

      even_lt : even < 256
      even_lt = omega (arith, f_lt a, f_lt b)

      odd_lt : odd < 256
      odd_lt = omega (arith, odd_lem a h, odd_lem b k)

-- On two bytes, with the table below the `i - 2` elements under them and `i` below 2^20, `u8_xor i`
-- replaces the two by their exclusive or and leaves all else in place.
pub u8_xor_lem :
    (hash160 : Bytes → Bytes) (q s t : Stack) (i a b : ℕ)
    → i ≡ length q + 2
    → i < 2 ^ 20
    → a < 256
    → b < 256
    → Runs hash160
        (u8_xor i)
        (state (byte a ∷ byte b ∷ q ++ (xor_table ++ s)) t)
        (state (byte (bit_xor a b) ∷ q ++ (xor_table ++ s)) t)
u8_xor_lem hash160 q s t i a b e room h k =
    u8_xor-Runs hash160 q xor_table s t i e room (λ n l. xor_table-entry n s l) a b h k
