-- ===== src/Tests/Reference.antt =====
-- A reference for crypto_bigint's U256, and a toy hash, to run the model on.
use bit_vm.Prelude.{
  ℕ, zero, suc, [], ◌∷◌, ltb, if◌then◌else◌, ◌≤◌, ◌+◌, ◌-◌, ◌*◌, ◌/◌, ◌%◌, ◌^◌, ◌<◌, ◌≡◌, List,
  length, All, min, replicate, refl, subst, arith,
}
use bit_vm.Words.Bytes.{be_value, be_bytes, IsByte, be_value-lt}
use bit_vm.Words.U256.{U256}
use bit_vm.Hashing.{Bytes}

pub be_value_fits : (b : List ℕ) → length b ≡ 32 → All IsByte b → be_value b < 2 ^ 256
be_value_fits b e h = subst (λ (k : ℕ). be_value b < 256 ^ k) e (be_value-lt b h)

-- The position after the highest set bit, among the low `k` bits.
abbrev bit_length : ℕ → ℕ → ℕ
bit_length zero n = 0
bit_length (suc k) n = if ltb n (2 ^ k) then bit_length k n else suc k

pub bit_length-low :
    (k n : ℕ) → 0 < n → n < 2 ^ k → (0 < bit_length k n) × (2 ^ (bit_length k n - 1) ≤ n)
bit_length-low zero n g h = absurd (omega arith)
bit_length-low (suc k) n g h = ground (arith, bit_length-low k n)

pub bit_length-high : (k n : ℕ) → n < 2 ^ k → n < 2 ^ bit_length k n
bit_length-high zero n h = h
bit_length-high (suc k) n h = ground (arith, bit_length-high k n)

abbrev pub reference : U256
reference = record {
  from_be_bytes = λ b. be_value b % 2 ^ 256;
  to_be_bytes = λ n. be_bytes 32 n;
  wrapping_add = λ a b. (a + b) % 2 ^ 256;
  wrapping_mul = λ a b. a * b % 2 ^ 256;
  wrapping_div = λ a b. a / b;
  saturating_add = λ a b. min (a + b) (2 ^ 256 - 1);
  shl = λ a k. a * 2 ^ k % 2 ^ 256;
  bits = λ n. bit_length 256 n;
  from_be_bytes_lt = λ b. omega arith;
  wrapping_add_lt = λ a b. omega arith;
  from_be_bytes_value = λ b e h. omega (arith, be_value_fits b e h);
  to_be_bytes_value = λ n h. refl;
  wrapping_add_value = λ a b g h. refl;
  wrapping_mul_value = λ a b g h. refl;
  wrapping_div_value = λ a b g h i. refl;
  saturating_add_value = λ a b g h. refl;
  shl_value = λ a k g h. refl;
  bits_zero = refl;
  bits_low = λ n g h. bit_length-low 256 n g h;
  bits_high = λ n h. bit_length-high 256 n h;
}

-- Thirty-two bytes of which the first is the sum of the input.
abbrev pub sum : List ℕ → ℕ
sum [] = 0
sum (x ∷ xs) = (x + sum xs) % 256

abbrev pub toy_sha256 : Bytes → Bytes
toy_sha256 input = sum input ∷ replicate 31 0
