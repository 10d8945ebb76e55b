-- ===== src/U32/Rrot/General.antt =====
-- The rotations that extract bits from each byte.
use native.Mathlib.Nat.{mod-lt}
use bit_vm.Prelude.{
  ℕ, zero, suc, ◌+◌, ◌-◌, ◌*◌, ◌/◌, ◌%◌, ◌^◌, ◌≤◌, ◌<◌, ◌≡◌, refl, sym, ap, ◌∙◌, subst, some, [],
  ◌∷◌, ◌++◌, arith,
}
use bit_vm.Hashing.{Bytes}
use bit_vm.Script.Defs.{
  Stack, op_toaltstack, op_fromaltstack, op_swap, op_2swap, op_rot, op_add, Script, State, state,
  take_out, run,
}
use bit_vm.Script.Run.{◌⨾◌, Runs, run-then}
use bit_vm.U32.Stack.{byte, word, word_of, roll, Transforms}
use bit_vm.U32.Rrot.Defs.{extract_script, byte_reorder, rotate_script, rrot_bits}
use bit_vm.U32.Rrot.Extract.{u8_extract_hbit-is-some, u8_extract_hbit-Runs}
use bit_vm.U32.Rrot.Rotate.{rrot, shifted, shifted_lt, of_bytes, rrot-bytes}
use bit_vm.U32.Rrot.Amount.{of_bytes_lem}

module _ (hash160 : Bytes → Bytes) where
  record Reorders (offset a b c d : ℕ) (s t : Stack) : Type 0 where
    script : Script
    built : byte_reorder offset ≡ some script
    effect :
        Runs hash160 script
          (state (byte d ∷ byte c ∷ byte b ∷ byte a ∷ s) t)
          (state (word (rrot (of_bytes a b c d) (8 * offset)) ++ s) t)

  byte_reorder-Reorders :
      (offset a b c d : ℕ) (s t : Stack)
      → offset < 4
      → a < 256
      → b < 256
      → c < 256
      → d < 256
      → Reorders offset a b c d s t
  unfolding byte_reorder run rrot
  byte_reorder-Reorders zero a b c d s t h ha hb hc hd = record {
    script = op_swap ∷ op_2swap ∷ op_swap ∷ [];
    built = refl;
    effect = record {
      runs =
          ap (λ w. some (state (w ++ s) t))
            (sym (word_of (rrot (of_bytes a b c d) 0) a b c d ha hb hc hd (omega arith)));
    };
  }
  byte_reorder-Reorders (suc zero) a b c d s t h ha hb hc hd = record {
    script = op_swap ∷ op_rot ∷ [];
    built = refl;
    effect = record {
      runs =
          ap (λ w. some (state (w ++ s) t))
            (sym (word_of (rrot (of_bytes a b c d) 8) b c d a hb hc hd ha (omega arith)));
    };
  }
  byte_reorder-Reorders (suc (suc zero)) a b c d s t h ha hb hc hd = record {
    script = op_swap ∷ op_2swap ∷ op_swap ∷ op_2swap ∷ [];
    built = refl;
    effect = record {
      runs =
          ap (λ w. some (state (w ++ s) t))
            (sym (word_of (rrot (of_bytes a b c d) 16) c d a b hc hd ha hb (omega arith)));
    };
  }
  byte_reorder-Reorders (suc (suc (suc zero))) a b c d s t h ha hb hc hd = record {
    script = op_swap ∷ op_rot ∷ op_2swap ∷ [];
    built = refl;
    effect = record {
      runs =
          ap (λ w. some (state (w ++ s) t))
            (sym (word_of (rrot (of_bytes a b c d) 24) d a b c hd ha hb hc (omega arith)));
    };
  }
  byte_reorder-Reorders (suc (suc (suc (suc n)))) a b c d s t h ha hb hc hd = absurd (omega arith)

  -- The extracted bits join those of the neighbouring bytes.
  join_all-Runs :
      (a b c d l m n o : ℕ) (s t : Stack)
      → a < 256
      → b < 256
      → c < 256
      → d < 256
      → l < 256
      → m < 256
      → n < 256
      → o < 256
      → Runs hash160
          (roll 7
            ⨾ op_add ∷ op_toaltstack ∷ op_add ∷ op_toaltstack ∷ op_add ∷ op_toaltstack ∷ op_add
              ∷ op_toaltstack ∷ op_fromaltstack ∷ op_fromaltstack ∷ op_fromaltstack
              ∷ op_fromaltstack ∷ [])
          (state (byte d ∷ byte o ∷ byte c ∷ byte n ∷ byte b ∷ byte m ∷ byte a ∷ byte l ∷ s) t)
          (state (byte (d + l) ∷ byte (c + o) ∷ byte (b + n) ∷ byte (a + m) ∷ s) t)
  unfolding roll run take_out
  join_all-Runs a b c d l m n o s t ha hb hc hd hl hm hn ho = record { runs = ground arith }

  -- The four bytes, each extracted and joined, give the word rotated by less than a byte.
  extract_all-Runs :
      (hbit a b c d : ℕ) (s t : Stack) (rest : Script) (end : State)
      → 1 ≤ hbit
      → hbit < 8
      → a < 256
      → b < 256
      → c < 256
      → d < 256
      → Runs hash160 rest
          (state
            (byte (shifted hbit d a)
              ∷ byte (shifted hbit c d)
              ∷ byte (shifted hbit b c)
              ∷ byte (shifted hbit a b)
              ∷ s)
            t)
          end
      → Runs hash160
          (rotate_script (extract_script hbit) rest)
          (state (byte a ∷ byte b ∷ byte c ∷ byte d ∷ s) t)
          end
  unfolding rotate_script roll run take_out
  extract_all-Runs hbit a b c d s t rest end h g ha hb hc hd next =
      run-then hash160 (u8_extract_hbit-Runs hash160 hbit a (byte b ∷ byte c ∷ byte d ∷ s) t h g ha)
        (run-then hash160 (second (high a) (low a) b c d) (
          run-then hash160
            (u8_extract_hbit-Runs hash160 hbit b
              (byte (high a) ∷ byte (low a) ∷ byte c ∷ byte d ∷ s) t h g hb)
            (run-then hash160 (third (high b) (low b) (high a) (low a) c d) (
              run-then hash160
                (u8_extract_hbit-Runs hash160 hbit c
                  (byte (high b) ∷ byte (low b) ∷ byte (high a) ∷ byte (low a) ∷ byte d ∷ s) t h g
                  hc)
                (run-then hash160 (fourth (high c) (low c) (high b) (low b) (high a) (low a) d) (
                  run-then hash160
                    (u8_extract_hbit-Runs hash160 hbit d
                      (byte (high c)
                        ∷ byte (low c)
                        ∷ byte (high b)
                        ∷ byte (low b)
                        ∷ byte (high a)
                        ∷ byte (low a)
                        ∷ s)
                      t h g hd)
                    (run-then hash160
                      (join_all-Runs (high a) (high b) (high c) (high d) (low a) (low b) (low c)
                        (low d) s t (high_lt a ha) (high_lt b hb) (high_lt c hc) (high_lt d hd)
                        (low_lt a) (low_lt b) (low_lt c) (low_lt d))
                      next)))))))
    where
      high : ℕ → ℕ
      high x = x * 2 ^ hbit / 256

      low : ℕ → ℕ
      low x = x * 2 ^ hbit % 256

      low_lt : (x : ℕ) → low x < 256
      low_lt x = omega arith

      high_lt : (x : ℕ) → x < 256 → high x < 256
      high_lt x hx =
          let top : shifted hbit x 0 < 256 = shifted_lt hbit x 0 h g hx (omega arith) in
          omega (arith, top)

      second :
          (x y z w v : ℕ)
          → Runs hash160
              (op_rot ∷ [])
              (state (byte x ∷ byte y ∷ byte z ∷ byte w ∷ byte v ∷ s) t)
              (state (byte z ∷ byte x ∷ byte y ∷ byte w ∷ byte v ∷ s) t)
      second x y z w v = record { runs = refl }

      third :
          (x y z w v u : ℕ)
          → Runs hash160
              (roll 4)
              (state (byte x ∷ byte y ∷ byte z ∷ byte w ∷ byte v ∷ byte u ∷ s) t)
              (state (byte v ∷ byte x ∷ byte y ∷ byte z ∷ byte w ∷ byte u ∷ s) t)
      third x y z w v u = record { runs = refl }

      fourth :
          (x y z w v u o : ℕ)
          → Runs hash160
              (roll 6)
              (state (byte x ∷ byte y ∷ byte z ∷ byte w ∷ byte v ∷ byte u ∷ byte o ∷ s) t)
              (state (byte o ∷ byte x ∷ byte y ∷ byte z ∷ byte w ∷ byte v ∷ byte u ∷ s) t)
      fourth x y z w v u o = record { runs = refl }

  pub rrot_bits-Transforms :
      (hbit offset v : ℕ) (s t : Stack)
      → 1 ≤ hbit
      → hbit < 8
      → offset < 4
      → v < 2 ^ 32
      → Transforms hash160
          (rrot_bits hbit offset)
          (v ∷ [])
          (rrot (rrot v (8 - hbit)) (8 * offset) ∷ [])
          s
          t
  unfolding rrot_bits
  rrot_bits-Transforms hbit offset v s t h g k lt =
      let r : Reorders offset z₀ z₁ z₂ z₃ s t =
        byte_reorder-Reorders offset z₀ z₁ z₂ z₃ s t k l₀ l₁ l₂ l₃ in
      let same_word : of_bytes z₀ z₁ z₂ z₃ ≡ rrot v (8 - hbit) =
        sym (
          rrot-bytes hbit a b c d h g (mod-lt v four) (mod-lt (v / 256) four)
            (mod-lt (v / 2 ^ 16) four) (mod-lt (v / 2 ^ 24) four))
        ∙ ap (λ w. rrot w (8 - hbit)) (of_bytes_lem v lt) in
      let next : Runs hash160 r.script (state (byte z₃ ∷ byte z₂ ∷ byte z₁ ∷ byte z₀ ∷ s) t)
          (state (word (rrot (rrot v (8 - hbit)) (8 * offset)) ++ s) t) =
        subst
          (λ (w : ℕ).
            Runs hash160 r.script (state (byte z₃ ∷ byte z₂ ∷ byte z₁ ∷ byte z₀ ∷ s) t)
              (state (word (rrot w (8 * offset)) ++ s) t))
          same_word r.effect in
      record {
        script = rotate_script (extract_script hbit) r.script;
        built = rw (u8_extract_hbit-is-some hbit h g, r.built) refl;
        effect =
            extract_all-Runs hbit a b c d s t r.script
              (state (word (rrot (rrot v (8 - hbit)) (8 * offset)) ++ s) t) h g (mod-lt v four)
              (mod-lt (v / 256) four) (mod-lt (v / 2 ^ 16) four) (mod-lt (v / 2 ^ 24) four) next;
      }
    where
      four : 0 < 256
      four = omega arith

      a : ℕ
      a = v % 256

      b : ℕ
      b = v / 256 % 256

      c : ℕ
      c = v / 2 ^ 16 % 256

      d : ℕ
      d = v / 2 ^ 24 % 256

      z₀ : ℕ
      z₀ = shifted hbit a b

      z₁ : ℕ
      z₁ = shifted hbit b c

      z₂ : ℕ
      z₂ = shifted hbit c d

      z₃ : ℕ
      z₃ = shifted hbit d a

      l₀ : z₀ < 256
      l₀ = shifted_lt hbit a b h g (mod-lt v four) (mod-lt (v / 256) four)

      l₁ : z₁ < 256
      l₁ = shifted_lt hbit b c h g (mod-lt (v / 256) four) (mod-lt (v / 2 ^ 16) four)

      l₂ : z₂ < 256
      l₂ = shifted_lt hbit c d h g (mod-lt (v / 2 ^ 16) four) (mod-lt (v / 2 ^ 24) four)

      l₃ : z₃ < 256
      l₃ = shifted_lt hbit d a h g (mod-lt (v / 2 ^ 24) four) (mod-lt v four)
