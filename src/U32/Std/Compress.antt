-- ===== src/U32/Std/Compress.antt =====
-- One element for four: the bits of a word as a signed number, and back.
use native.Mathlib.Nat.{
  mul-le-mul_left, mul-le-mul_right, div-lt_iff_lt-mul, mul-add-div, mul-add-mod_self_left,
  div-add-mod', mod-eq_of_lt, div-eq_of_lt, div-add-mod, mod-lt, pow-suc, div-div-eq-div-mul,
}
use bit_vm.Prelude.{
  ℕ, zero, suc, ◌+◌, ◌-◌, ◌*◌, ◌/◌, ◌%◌, ◌^◌, ◌≤◌, ◌<◌, ◌≡◌, refl, sym, ap, ap₂, ◌∙◌, subst, Bool,
  false, some, [], ◌∷◌, arith, ltb, ◌==◌, if◌then◌else◌,
}
use bit_vm.Prelude.Bits.{two-pow_pos, two-pow_mono, mod-mul, two-pow_add}
use bit_vm.Prelude.Int.{ℤ, pos, negsuc, magnitude}
use bit_vm.Hashing.{Bytes}
use bit_vm.Script.Defs.{
  num, Stack, push, op_if, op_else, op_endif, op_toaltstack, op_fromaltstack, op_dup, op_2dup,
  op_drop, op_swap, op_2swap, op_tuck, op_size, op_add, op_sub, op_1add, op_1sub, op_greaterthan,
  op_greaterthanorequal, op_equal, Script, state, bool, num_size, run,
}
use bit_vm.Script.Run.{◌⨾◌, Runs, run-then}
use bit_vm.U32.Stack.{byte}
use bit_vm.U32.Std.Defs.{op_256mul, extract_bit, extract_bits, extract_first, split_sign}

-- A word read as an i32.
unfoldable pub as_i32 : ℕ → ℤ
as_i32 v = if ltb v (2 ^ 31) then pos v else negsuc (2 ^ 32 - 1 - v)

-- The bits from `j` up to `k`, taken after those from `k` on.
pub bits_lem :
    (c j k n acc : ℕ)
    → k ≡ c + j
    → (n % 2 ^ k % 2 ^ j ≡ n % 2 ^ j)
      × ((acc * 2 + n / 2 ^ k) * 2 ^ c + n % 2 ^ k / 2 ^ j ≡ acc * 2 ^ suc c + n / 2 ^ j)
bits_lem c j k n acc e =
    (ap (λ (t : ℕ). t % D) split ∙ mul-add-mod_self_left D A b ∙ mod-eq_of_lt small, regroup)
  where
    D : ℕ
    D = 2 ^ j

    C : ℕ
    C = 2 ^ c

    A : ℕ
    A = n / D % C

    b : ℕ
    b = n % D

    K : 2 ^ k ≡ D * C
    K = two-pow_add c j k e

    small : b < D
    small = mod-lt n (two-pow_pos j)

    split : n % 2 ^ k ≡ D * A + b
    split = ap (λ (t : ℕ). n % t) K ∙ mod-mul n D C (two-pow_pos j) (two-pow_pos c) ∙ grind arith

    low : n % 2 ^ k / D ≡ A
    low =
        ap (λ (t : ℕ). t / D) split
        ∙ mul-add-div (two-pow_pos j) A b
        ∙ omega (arith, div-eq_of_lt small)

    high : n / 2 ^ k ≡ n / D / C
    high = ap (λ (t : ℕ). n / t) K ∙ sym (div-div-eq-div-mul n D C)

    regroup : (acc * 2 + n / 2 ^ k) * C + n % 2 ^ k / D ≡ acc * 2 ^ suc c + n / D
    regroup =
        let whole : C * (n / D / C) + A ≡ n / D = div-add-mod (n / D) C in
        ap₂ (λ (q r : ℕ). (acc * 2 + q) * C + r) high low ∙ grind (arith, whole, pow-suc 2 c)

pub quotient_lt : (n k : ℕ) → n < 2 ^ suc k → n / 2 ^ k < 2
quotient_lt n k h = (div-lt_iff_lt-mul (two-pow_pos k)).1 (omega (arith, pow-suc 2 k))

room_lem :
    (acc q P : ℕ)
    → q < 2
    → 0 < P
    → (acc + 1) * (P * 2) < 2 ^ 30
    → ((acc * 2 + q + 1) * P < 2 ^ 30) × (acc < 2 ^ 30 - 1)
room_lem acc q P h g small =
    let grow : (acc * 2 + q + 1) * P ≤ (acc * 2 + 2) * P = mul-le-mul_right P (omega arith) in
    let twice : (acc * 2 + 2) * P ≡ (acc + 1) * (P * 2) = grind arith in
    let one : (acc + 1) * 2 ≤ (acc + 1) * (P * 2) = mul-le-mul_left (acc + 1) (omega arith) in
    (omega (arith, grow, twice), omega (arith, one))

-- Only -2^31 takes five bytes.
num_size_lem : (z : ℤ) → magnitude z < 2 ^ 31 → (num_size z == 5) ≡ false
unfolding num_size
num_size_lem z h = ground arith

as_i32_low : (n : ℕ) → n < 2 ^ 31 → as_i32 (0 * 2 ^ 31 + n) ≡ pos n
unfolding as_i32
as_i32_low n h = ground arith

as_i32_high : (n : ℕ) → suc n < 2 ^ 31 → as_i32 (1 * 2 ^ 31 + suc n) ≡ negsuc (2 ^ 31 - 2 - n)
unfolding as_i32
as_i32_high n h = ground arith

module _ (hash160 : Bytes → Bytes) where
  mul256-Runs :
      (n : ℕ) (s t : Stack)
      → n < 2 ^ 23
      → Runs hash160 op_256mul (state (byte n ∷ s) t) (state (byte (n * 256) ∷ s) t)
  unfolding op_256mul run
  mul256-Runs n s t h = record { runs = ground arith }

  extract_bit-Runs :
      (k q r acc : ℕ) (s t : Stack)
      → q < 2
      → r < 2 ^ k
      → k < 31
      → acc < 2 ^ 30 - 1
      → Runs hash160
          (extract_bit k)
          (state (byte (q * 2 ^ k + r) ∷ s) (byte acc ∷ t))
          (state (byte r ∷ s) (byte (acc * 2 + q) ∷ t))
  unfolding extract_bit run
  extract_bit-Runs k zero r acc s t h₁ h₂ h₃ h₄ =
      let small : 2 ^ k ≤ 2 ^ 30 = two-pow_mono k 30 (omega arith) in record { runs = ground arith }
  extract_bit-Runs k (suc zero) r acc s t h₁ h₂ h₃ h₄ =
      let small : 2 ^ k ≤ 2 ^ 30 = two-pow_mono k 30 (omega arith) in record { runs = ground arith }
  extract_bit-Runs k (suc (suc q)) r acc s t h₁ h₂ h₃ h₄ = absurd (omega arith)

  pub extract_first-Runs :
      (k q r : ℕ) (s t : Stack)
      → q < 2
      → r < 2 ^ k
      → k < 30
      → Runs hash160
          (extract_first k)
          (state (byte (q * 2 ^ k + r) ∷ s) t)
          (state (byte r ∷ s) (byte q ∷ t))
  unfolding extract_first run
  extract_first-Runs k zero r s t h₁ h₂ h₃ =
      let small : 2 ^ k ≤ 2 ^ 29 = two-pow_mono k 29 (omega arith) in record { runs = ground arith }
  extract_first-Runs k (suc zero) r s t h₁ h₂ h₃ =
      let small : 2 ^ k ≤ 2 ^ 29 = two-pow_mono k 29 (omega arith) in record { runs = ground arith }
  extract_first-Runs k (suc (suc q)) r s t h₁ h₂ h₃ = absurd (omega arith)

  -- The loop moves the bits of weight 2^j up to 2^(k - 1) to the alternative stack's element.
  pub extract_bits-Runs :
      (c j k n acc : ℕ) (s t : Stack)
      → k ≡ c + j
      → k < 32
      → n < 2 ^ k
      → (acc + 1) * 2 ^ c < 2 ^ 30
      → Runs hash160
          (extract_bits c k)
          (state (byte n ∷ s) (byte acc ∷ t))
          (state (byte (n % 2 ^ j) ∷ s) (byte (acc * 2 ^ c + n / 2 ^ j) ∷ t))
  unfolding extract_bits run
  extract_bits-Runs zero j k n acc s t e h lt small =
      let same : k ≡ j = omega arith in
      let lt' : n < 2 ^ j = subst (λ (i : ℕ). n < 2 ^ i) same lt in
      record {
        runs = λ i. some (state (byte (sym (mod-eq_of_lt lt') i) ∷ s) (byte (whole lt' i) ∷ t));
      }
    where
      whole : n < 2 ^ j → acc ≡ acc * 2 ^ 0 + n / 2 ^ j
      whole l = omega (arith, div-eq_of_lt l)
  extract_bits-Runs (suc c) j zero n acc s t e h lt small = absurd (omega arith)
  extract_bits-Runs (suc c) j (suc k) n acc s t e h lt small =
      let (low, high) = bits_lem c j k n acc (omega arith) in
      let split : n / 2 ^ k * 2 ^ k + n % 2 ^ k ≡ n = div-add-mod' n (2 ^ k) in
      let bit : n / 2 ^ k < 2 = quotient_lt n k lt in
      let (room, below) =
        room_lem acc (n / 2 ^ k) (2 ^ c) bit (two-pow_pos c)
          (subst (λ (i : ℕ). (acc + 1) * i < 2 ^ 30) (pow-suc 2 c) small) in
      record {
        runs =
            ap
              (λ (i : ℕ).
                run hash160 (extract_bits (suc c) (suc k)) (state (byte i ∷ s) (byte acc ∷ t)))
              (sym split)
            ∙ (run-then hash160
                (extract_bit-Runs k (n / 2 ^ k) (n % 2 ^ k) acc s t bit (mod-lt n (two-pow_pos k))
                  (omega arith) below)
                (extract_bits-Runs c j k (n % 2 ^ k) (acc * 2 + n / 2 ^ k) s t (omega arith)
                  (omega arith) (mod-lt n (two-pow_pos k)) room)).runs
            ∙ (λ i. some (state (byte (low i) ∷ s) (byte (high i) ∷ t)));
      }

  pub top_byte-Runs :
      (a b c d : ℕ) (s t : Stack)
      → d < 256
      → Runs hash160
          (op_swap
            ∷ op_2swap
            ∷ op_swap
            ∷ push (pos 0x80)
            ∷ op_2dup
            ∷ op_greaterthanorequal
            ∷ op_dup
            ∷ op_toaltstack
            ∷ op_if
            ∷ op_sub
            ∷ op_else
            ∷ op_drop
            ∷ op_endif
            ∷ [])
          (state (byte a ∷ byte b ∷ byte c ∷ byte d ∷ s) t)
          (state (byte (d % 128) ∷ byte c ∷ byte b ∷ byte a ∷ s) (byte (d / 128) ∷ t))
  unfolding run
  top_byte-Runs a b c d s t h = record { runs = ground arith }

  pub shift_in-Runs :
      (n b : ℕ) (s t : Stack)
      → n < 2 ^ 23
      → b < 256
      → Runs hash160
          (op_256mul ⨾ op_add ∷ [])
          (state (byte n ∷ byte b ∷ s) t)
          (state (byte (n * 256 + b) ∷ s) t)
  unfolding run
  shift_in-Runs n b s t h g =
      run-then hash160 (mul256-Runs n (byte b ∷ s) t h) (record { runs = ground arith })

  pub sign_in-Runs :
      (q n : ℕ) (s t : Stack)
      → q < 2
      → n < 2 ^ 31
      → Runs hash160
          (op_fromaltstack ∷ op_if ∷ push (pos 0x7FFFFFFF) ∷ op_sub ∷ op_1sub ∷ op_endif ∷ [])
          (state (byte n ∷ s) (byte q ∷ t))
          (state (num (as_i32 (q * 2 ^ 31 + n)) ∷ s) t)
  unfolding run as_i32
  sign_in-Runs zero n s t h g = record { runs = ground arith }
  sign_in-Runs (suc zero) n s t h g = record { runs = ground arith }
  sign_in-Runs (suc (suc q)) n s t h g = absurd (omega arith)

  -- The rest of `split_sign` for a number of at most four bytes.
  sign_test : Script
  sign_test =
      op_tuck
      ∷ op_if
      ∷ op_drop
      ∷ push (pos 0)
      ∷ op_else
      ∷ op_tuck
      ∷ op_greaterthan
      ∷ op_tuck
      ∷ op_if
      ∷ push (pos 0x7FFFFFFF)
      ∷ op_add
      ∷ op_1add
      ∷ op_endif
      ∷ op_endif
      ∷ op_swap
      ∷ op_toaltstack
      ∷ []

  sized-Runs :
      (z : ℤ) (c : Bool) (s t : Stack)
      → (num_size z == 5) ≡ c
      → Runs hash160
          (op_size ∷ push (pos 5) ∷ op_equal ∷ [])
          (state (num z ∷ s) t)
          (state (bool c ∷ num z ∷ s) t)
  unfolding run
  sized-Runs z c s t e = record { runs = ap (λ b. some (state (bool b ∷ num z ∷ s) t)) e }

  sign_test_pos :
      (n : ℕ) (s t : Stack)
      → n < 2 ^ 31
      → Runs hash160 sign_test (state (bool false ∷ byte n ∷ s) t) (state (byte n ∷ s) (byte 0 ∷ t))
  unfolding sign_test run
  sign_test_pos n s t h = record { runs = ground arith }

  sign_test_negsuc :
      (n : ℕ) (s t : Stack)
      → n < 2 ^ 31 - 1
      → Runs hash160 sign_test
          (state (bool false ∷ num (negsuc n) ∷ s) t)
          (state (byte (2 ^ 31 - 1 - n) ∷ s) (byte 1 ∷ t))
  unfolding sign_test run
  sign_test_negsuc n s t h = record { runs = ground arith }

  pub split_sign-Runs :
      (q n : ℕ) (s t : Stack)
      → q < 2
      → n < 2 ^ 31
      → Runs hash160 split_sign
          (state (num (as_i32 (q * 2 ^ 31 + n)) ∷ s) t)
          (state (byte n ∷ s) (byte q ∷ t))
  unfolding split_sign sign_test
  split_sign-Runs zero n s t h g = rw (as_i32_low n g) (
      run-then hash160 (sized-Runs (pos n) false s t (num_size_lem (pos n) g))
        (sign_test_pos n s t g))
  split_sign-Runs (suc zero) zero s t h g = unfold as_i32 run num_size in record { runs = refl }
  split_sign-Runs (suc zero) (suc n) s t h g = rw (as_i32_high n g) (
      subst
        (λ (i : ℕ).
          Runs hash160 split_sign (state (num (negsuc (2 ^ 31 - 2 - n)) ∷ s) t)
            (state (byte i ∷ s) (byte 1 ∷ t)))
        (back n g)
        (run-then hash160
          (sized-Runs (negsuc (2 ^ 31 - 2 - n)) false s t
            (num_size_lem (negsuc (2 ^ 31 - 2 - n)) (omega arith)))
          (sign_test_negsuc (2 ^ 31 - 2 - n) s t (omega arith))))
    where
      back : (n : ℕ) → suc n < 2 ^ 31 → 2 ^ 31 - 1 - (2 ^ 31 - 2 - n) ≡ suc n
      back n g = omega arith
  split_sign-Runs (suc (suc q)) n s t h g = absurd (omega arith)
