-- ===== src/Words/U256.antt =====
-- What the header chain uses of crypto_bigint's U256. A value is a number below 2^256; the laws
-- are the crate's documented behaviour.
use bit_vm.Prelude.{ℕ, ◌+◌, ◌-◌, ◌*◌, ◌/◌, ◌%◌, ◌^◌, ◌≤◌, ◌<◌, ◌≡◌, List, length, All, min}
use bit_vm.Words.Bytes.{be_value, be_bytes, IsByte}

pub record U256 : Type 0 where
  pub from_be_bytes : List ℕ → ℕ
  pub to_be_bytes : ℕ → List ℕ
  pub wrapping_add : ℕ → ℕ → ℕ
  pub wrapping_mul : ℕ → ℕ → ℕ
  pub wrapping_div : ℕ → ℕ → ℕ
  pub saturating_add : ℕ → ℕ → ℕ
  pub shl : ℕ → ℕ → ℕ
  pub bits : ℕ → ℕ
  pub from_be_bytes_lt : (b : List ℕ) → from_be_bytes b < 2 ^ 256
  pub wrapping_add_lt : (a b : ℕ) → wrapping_add a b < 2 ^ 256
  pub from_be_bytes_value :
      (b : List ℕ) → length b ≡ 32 → All IsByte b → from_be_bytes b ≡ be_value b
  pub to_be_bytes_value : (n : ℕ) → n < 2 ^ 256 → to_be_bytes n ≡ be_bytes 32 n
  pub wrapping_add_value :
      (a b : ℕ) → a < 2 ^ 256 → b < 2 ^ 256 → wrapping_add a b ≡ (a + b) % 2 ^ 256
  pub wrapping_mul_value :
      (a b : ℕ) → a < 2 ^ 256 → b < 2 ^ 256 → wrapping_mul a b ≡ a * b % 2 ^ 256
  pub wrapping_div_value : (a b : ℕ) → a < 2 ^ 256 → b < 2 ^ 256 → 0 < b → wrapping_div a b ≡ a / b
  pub saturating_add_value :
      (a b : ℕ) → a < 2 ^ 256 → b < 2 ^ 256 → saturating_add a b ≡ min (a + b) (2 ^ 256 - 1)
  pub shl_value : (a k : ℕ) → a < 2 ^ 256 → k < 256 → shl a k ≡ a * 2 ^ k % 2 ^ 256
  pub bits_zero : bits 0 ≡ 0
  pub bits_low : (n : ℕ) → 0 < n → n < 2 ^ 256 → (0 < bits n) × (2 ^ (bits n - 1) ≤ n)
  pub bits_high : (n : ℕ) → n < 2 ^ 256 → n < 2 ^ bits n
