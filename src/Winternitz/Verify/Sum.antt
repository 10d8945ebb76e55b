-- ===== src/Winternitz/Verify/Sum.antt =====
-- The script that verifies the checksum compares the checksum's digits with the digits' sum.
use native.Mathlib.Nat.{pow-suc, pow-zero, mul-le-mul_left, mul-le-mul_right}
use bit_vm.Prelude.{
  ℕ, zero, suc, ◌+◌, ◌*◌, ◌^◌, ◌≤◌, ◌<◌, ◌≡◌, refl, sym, ap, subst, some, List, [], ◌∷◌, arith,
  length, All,
}
use bit_vm.Prelude.Int.{ℤ, pos, ◌-ℤ◌, magnitude}
use bit_vm.Script.Run.{repeat, Runs, run-then}
use bit_vm.Winternitz.Digits.{number_from, sum}
use bit_vm.Winternitz.Checksum.{IsValid, base_bounds}
use bit_vm.Prelude.Bits.{two-pow_pos}
use bit_vm.Hashing.{Bytes}
use bit_vm.Script.Defs.{num, Stack, op_fromaltstack, op_dup, op_tuck, op_add, op_sub, state, run}
use bit_vm.U32.Stack.{byte}
use bit_vm.Winternitz.Defs.{Parameters, max_digit}
use bit_vm.Winternitz.Verify.Defs.{doublings, add_digit}

abbrev pub digits : List ℕ → Stack → Stack
digits [] s = s
digits (d ∷ ds) s = byte d ∷ digits ds s

-- Digits in the opposite order.
abbrev pub turned : List ℕ → Stack → Stack
turned [] s = s
turned (d ∷ ds) s = turned ds (byte d ∷ s)

pow_pos : (b k : ℕ) → 0 < b → 0 < b ^ k
pow_pos b zero h = rw pow-zero (omega arith)
pow_pos b (suc k) h =
    let one_le : 1 * 1 ≤ b ^ k * 1 = mul-le-mul_right 1 (pow_pos b k h) in
    let next : b ^ k * 1 ≤ b ^ k * b = mul-le-mul_left (b ^ k) h in
    rw (pow-suc b k) (omega (arith, one_le, next))

next_le : (n d m : ℕ) → d ≤ m → n * (m + 1) + d + 1 ≤ (n + 1) * (m + 1)
next_le n d m h = grind arith

pub negated_size : (n : ℕ) → n < 2 ^ 31 → magnitude (pos 0 -ℤ pos n) < 2 ^ 31
negated_size n h = ground arith

negated_sum : (n d : ℕ) → pos 0 -ℤ pos n -ℤ pos d ≡ pos 0 -ℤ pos (n + d)
negated_sum n d = ground arith

module _ (hash160 : Bytes → Bytes) where
  double-Runs :
      (n : ℕ) (s t : Stack)
      → n < 2 ^ 31
      → Runs hash160 (op_dup ∷ op_add ∷ []) (state (byte n ∷ s) t) (state (byte (n + n) ∷ s) t)
  unfolding run
  double-Runs n s t h = record { runs = ground arith }

  add-Runs :
      (n d : ℕ) (s t : Stack)
      → n < 2 ^ 31
      → d < 2 ^ 31
      → Runs hash160
          (op_fromaltstack ∷ op_add ∷ [])
          (state (byte n ∷ s) (byte d ∷ t))
          (state (byte (n + d) ∷ s) t)
  unfolding run
  add-Runs n d s t h k = record { runs = ground arith }

  subtract-Runs :
      (z : ℤ) (d : ℕ) (s t : Stack)
      → magnitude z < 2 ^ 31
      → d < 2 ^ 31
      → Runs hash160
          (op_fromaltstack ∷ op_tuck ∷ op_sub ∷ [])
          (state (num z ∷ s) (byte d ∷ t))
          (state (num (z -ℤ pos d) ∷ byte d ∷ s) t)
  unfolding run
  subtract-Runs z d s t h k = record { runs = ground arith }

  doublings-Runs :
      (bits n : ℕ) (s t : Stack)
      → bits ≤ 8
      → n * 2 ^ bits < 2 ^ 31
      → Runs hash160 (doublings bits) (state (byte n ∷ s) t) (state (byte (n * 2 ^ bits) ∷ s) t)
  unfolding doublings repeat run
  doublings-Runs zero n s t h small =
      let same_number : n ≡ n * 2 ^ 0 = omega arith in
      record { runs = ap (λ (k : ℕ). some (state (byte k ∷ s) t)) same_number }
  doublings-Runs (suc bits) n s t h small =
      let power : 2 ^ suc bits ≡ 2 ^ bits * 2 = pow-suc 2 bits in
      let twice : (n + n) * 2 ^ bits ≡ n * 2 ^ suc bits = rw power (grind arith) in
      let below : n * 1 ≤ n * 2 ^ suc bits = mul-le-mul_left n (two-pow_pos (suc bits)) in
      subst
        (λ (k : ℕ).
          Runs hash160 (doublings (suc bits)) (state (byte n ∷ s) t) (state (byte k ∷ s) t))
        twice
        (run-then hash160 (double-Runs n s t (omega (arith, below)))
          (doublings-Runs bits (n + n) s t (omega arith) (omega (arith, twice))))

  -- One more digit of a number.
  add_digit-Runs :
      (ps : Parameters) (n d : ℕ) (s t : Stack)
      → IsValid ps
      → n * (max_digit ps + 1) < 2 ^ 31
      → d ≤ max_digit ps
      → Runs hash160
          (add_digit ps)
          (state (byte n ∷ s) (byte d ∷ t))
          (state (byte (n * (max_digit ps + 1) + d) ∷ s) t)
  add_digit-Runs ps n d s t v small h =
      let (lo, hi) = base_bounds ps.log2_base v.base.0 v.base.1 in
      let base : 2 ^ ps.log2_base ≡ max_digit ps + 1 = omega (arith, lo) in
      let small' : n * 2 ^ ps.log2_base < 2 ^ 31 =
        subst (λ (k : ℕ). n * k < 2 ^ 31) (sym base) small in
      subst
        (λ (k : ℕ).
          Runs hash160 (add_digit ps) (state (byte n ∷ s) (byte d ∷ t))
            (state (byte (n * k + d) ∷ s) t))
        base
        (run-then hash160 (doublings-Runs ps.log2_base n s (byte d ∷ t) v.base.1 small')
          (add-Runs (n * 2 ^ ps.log2_base) d s t small' (omega (arith, hi))))

  pub number-Runs :
      (ps : Parameters) (n : ℕ) (ds : List ℕ) (s t : Stack)
      → IsValid ps
      → All (λ d. d ≤ max_digit ps) ds
      → (n + 1) * (max_digit ps + 1) ^ length ds ≤ 2 ^ 31
      → Runs hash160
          (repeat (length ds) (add_digit ps))
          (state (byte n ∷ s) (digits ds t))
          (state (byte (number_from (max_digit ps + 1) n ds) ∷ s) t)
  unfolding repeat run number_from
  number-Runs ps n [] s t v a small = record { runs = refl }
  number-Runs ps n (d ∷ ds) s t v a small =
      let B : ℕ = max_digit ps + 1 in
      let P : ℕ = B ^ length ds in
      let power : B ^ suc (length ds) ≡ P * B = pow-suc B (length ds) in
      let positive : 0 < P = pow_pos B (length ds) (omega arith) in
      let less : (n * B + d + 1) * P ≤ (n + 1) * B * P =
        mul-le-mul_right P (next_le n d (max_digit ps) a.0) in
      let whole : (n + 1) * B * P ≡ (n + 1) * B ^ suc (length ds) = rw power (grind arith) in
      let room : (n * B + d + 1) * P ≤ 2 ^ 31 = omega (arith, less, whole, small) in
      let first : (n * B + d + 1) * 1 ≤ (n * B + d + 1) * P =
        mul-le-mul_left (n * B + d + 1) positive in
      run-then hash160 (add_digit-Runs ps n d s (digits ds t) v (omega (arith, room, first)) a.0)
        (number-Runs ps (n * B + d) ds s t v a.1 room)

  -- The sum, negated, above the digits.
  pub sum-Runs :
      (n : ℕ) (ds : List ℕ) (s t : Stack)
      → n + sum ds < 2 ^ 31
      → All (λ d. d < 256) ds
      → Runs hash160
          (repeat (length ds) (op_fromaltstack ∷ op_tuck ∷ op_sub ∷ []))
          (state (num (pos 0 -ℤ pos n) ∷ s) (digits ds t))
          (state (num (pos 0 -ℤ pos (n + sum ds)) ∷ turned ds s) t)
  unfolding repeat run sum
  sum-Runs n [] s t h a =
      let same_number : n ≡ n + 0 = omega arith in
      record { runs = ap (λ (k : ℕ). some (state (num (pos 0 -ℤ pos k) ∷ s) t)) same_number }
  sum-Runs n (d ∷ ds) s t h a =
      let first =
        subtract-Runs (pos 0 -ℤ pos n) d s (digits ds t) (negated_size n (omega arith))
          (omega arith) in
      let whole : n + d + sum ds ≡ n + (d + sum ds) = omega arith in
      subst
        (λ (k : ℕ).
          Runs hash160 (repeat (suc (length ds)) (op_fromaltstack ∷ op_tuck ∷ op_sub ∷ []))
            (state (num (pos 0 -ℤ pos n) ∷ s) (byte d ∷ digits ds t))
            (state (num (pos 0 -ℤ pos k) ∷ turned ds (byte d ∷ s)) t))
        whole
        (run-then hash160
          (subst
            (λ z.
              Runs hash160 (op_fromaltstack ∷ op_tuck ∷ op_sub ∷ [])
                (state (num (pos 0 -ℤ pos n) ∷ s) (byte d ∷ digits ds t))
                (state (num z ∷ byte d ∷ s) (digits ds t)))
            (negated_sum n d) first)
          (sum-Runs (n + d) ds (byte d ∷ s) t (omega arith) a.1))
